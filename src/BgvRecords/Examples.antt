-- ===== src/BgvRecords/Examples.antt =====
-- The record of a permanent address.
use circle_core.Prelude.{◌≡◌, refl, true, leb, ◌&&◌}
use circle_core.Text.{codes, strip, is_empty}
use circle_core.Text.Ascii.{ascii}
use circle_core.Value.{text, Fields, field, closed, get}
use circle_core.Builtins.{simple}
use circle_core.BgvRecords.{Letters, ok, typed, collect, permanent_address, address_pairs}
use circle_core.BgvRecords.Complete.{IsReady, record_of, set_of, an_address, record_carries}

abbrev pub letters : Letters
letters = record {
  upper = λ t. t;
  casefold = λ t. t;
  digit_like = λ c. leb 48 c && leb c 57;
  digits = ascii;
}

abbrev home : Fields
home = field "line1" (text (codes " 12 MG Road")) (
    field "city" (text (codes "Pune"))
      (field "state" (text (codes "MH")) (field "pincode" (text (codes "411001")) closed)))

address_ready : ok (permanent_address simple home) ≡ true
unfolding ok permanent_address address_pairs collect typed get strip is_empty
address_ready = refl

record_carries_example :
    IsReady
      (record_of an_address simple letters home 7)
      "pincode"
      (set_of an_address simple letters home 7)
record_carries_example =
    record_carries an_address simple letters home 7 "pincode" address_ready refl
