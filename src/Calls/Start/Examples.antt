-- ===== src/Calls/Start/Examples.antt =====
-- A call that is begun, and bound to the provider's.
use circle_core.Prelude.{◌≡◌, refl, true, false, none, inr}
use circle_core.Text.{codes, is_empty}
use circle_core.Text.Ascii.{ascii}
use circle_core.Calls.{web, Actor}
use circle_core.Calls.Start.{
  Setup, Begun, begin_call, begun_of, is_configured, begin_for, has_active_call, is_bad, dial,
  is_phone,
}
use circle_core.Calls.Start.Alone.{IsBegun, begin_call-IsBegun}
use circle_core.Calls.Examples.{plain, candidate, job, empty}

abbrev setup : Setup
setup = record {
  has_provider = true;
  builds_payload = true;
  has_settings = false;
  phone_enabled = false;
}

abbrev actor : Actor
actor = record { email = none; name = none }

abbrev begun : Begun
begun = begun_of plain ascii 1000 (codes "SC-1") web actor candidate job empty

begin : begin_call setup plain ascii 1000 (codes "SC-1") (codes "c1") web actor empty ≡ inr begun
unfolding begin_call begin_for is_configured dial is_bad has_active_call is_empty is_phone
begin = refl

begin_call-IsBegun_example : IsBegun plain ascii web 1000 (codes "c1") (codes "SC-1") empty begun
begin_call-IsBegun_example =
    begin_call-IsBegun setup plain ascii 1000 (codes "SC-1") (codes "c1") web actor empty begun
      begin
