-- ===== src/Tests/Fields.antt =====
-- Elements from JSON texts.
use scriptor.Prelude.{
  ◌≡◌, refl, Bool, true, false, none, some, [], ◌∷◌, pos, negsuc, if◌then◌else◌, codes, ok, err,
  arith,
}
use scriptor.Element.Number.{decimal, to_string, stoi}
use scriptor.Element.{
  Element, find_string, find_time, check_level, find_level, find_message, from_json,
}
use scriptor.Element.Layout.{from_json_layout}
use scriptor.Element.Accepted.{is_ok, from_json-accepts}
use scriptor.Element.Level.{find_level_prefix}
use scriptor.Element.Nulls.{from_json-present}
use scriptor.Tests.Sample.{
  object, same, scalar, number, text, null, full, spaced, host, host-FormatsFields,
}

numbers : (stoi (codes " +42x") ≡ ok (pos 42)) × (to_string (negsuc 11) ≡ codes "-12")
unfolding stoi to_string decimal
numbers = (refl, refl)

stoi_fails :
    (stoi (codes "x1") ≡ err (codes "stoi")) × (stoi (codes "2147483648") ≡ err (codes "stoi"))
unfolding stoi
stoi_fails = (refl, refl)

from_json_run :
    from_json host (codes "{l:2,m:hi}") 0
    ≡ (ok (record { time = pos 1000; level = pos 2; message = codes "[] [:] [::] hi" }), 1)
unfolding from_json find_time find_level find_message find_string check_level
from_json_run = refl

from_json_layout_example :
    from_json host (codes "{l:2,m:hi}") 3
    ≡ (ok (record { time = pos 1003; level = pos 2; message = codes "[] [:] [::] hi" }), 4)
unfolding check_level
from_json_layout_example =
    from_json_layout host host-FormatsFields (codes "{l:2,m:hi}") 3 full refl refl

null_is_absent :
    (a b c : Bool)
    → elim (if a
        then some (scalar (number (pos 2)))
        else if b
        then some (scalar (text (codes "hi")))
        else none) [ none ↦ none | some value ↦ if host.is_null value then none else some value ]
      ≡ elim (if a
          then some (scalar (number (pos 2)))
          else if b
          then some (scalar (text (codes "hi")))
          else if c
          then some (scalar null)
          else none) [ none ↦ none | some value ↦ if host.is_null value then none else some value ]
null_is_absent true b c = refl
null_is_absent false true c = refl
null_is_absent false false true = refl
null_is_absent false false false = refl

from_json-present_example :
    from_json host (codes "{l:2,m:hi}") 5 ≡ from_json host (codes "{l:2,m:hi,p:null}") 5
from_json-present_example =
    from_json-present host (codes "{l:2,m:hi}") (codes "{l:2,m:hi,p:null}") 5 full spaced refl refl
      (λ key. null_is_absent (same (codes "l") key) (same (codes "m") key) (same (codes "p") key))

abbrev one : Element
one = record { time = pos 1; level = pos 2; message = codes "m" }

find_level_prefix_example :
    (find_level host (object ((codes "l", text (codes " 2nd")) ∷ [])) ≡ find_level host full)
    × (find_level host full ≡ ok (check_level host (pos 2)))
unfolding to_string decimal
find_level_prefix_example =
    find_level_prefix host (object ((codes "l", text (codes " 2nd")) ∷ [])) full
      (scalar (text (codes " 2nd"))) (scalar (number (pos 2))) (pos 2) (codes " ") (codes "nd")
      (omega arith) (refl, tt) refl refl refl refl refl refl refl refl refl

from_json-accepts_example : is_ok (from_json host (codes "{l:2,m:hi}") 4).0 ≡ true
from_json-accepts_example = from_json-accepts host (codes "{l:2,m:hi}") 4
