-- ===== src/Tests/Sample.antt =====
-- A host with a handful of JSON texts, levels numbered as in spdlog, and a clock that ticks with
-- each reading; and a site and a shell over it.
use scriptor.Prelude.{
  length, ◌+◌, ◌*◌, refl, Bool, true, false, ◌&&◌, Option, none, some, List, [], ◌∷◌, ℤ, pos,
  negsuc, ◌==◌, if◌then◌else◌, Bytes, codes, Result, ok, err,
}
use scriptor.Host.{Host, FormatsFields, OrdersLevels, NumbersLevels}
use scriptor.Element.Number.{stoi}
use scriptor.Tests.Format.{format, format-by_number, format-in_turn}
use scriptor.Options.{linux, Site}

pub data Scalar : Type 0 where
  null : Scalar
  number : ℤ → Scalar
  text : Bytes → Scalar

pub data Json : Type 0 where
  object : List (Bytes × Scalar) → Json
  scalar : Scalar → Json

abbrev pub same : Bytes → Bytes → Bool
same [] [] = true
same [] (d ∷ ds) = false
same (c ∷ cs) [] = false
same (c ∷ cs) (d ∷ ds) = c == d && same cs ds

abbrev find_field : Bytes → List (Bytes × Scalar) → Option Json
find_field key [] = none
find_field key ((k, v) ∷ fields) = if same k key then some (scalar v) else find_field key fields

abbrev find : Json → Bytes → Option Json
find (object fields) key = find_field key fields
find (scalar s) key = none

abbrev full_text : Bytes
full_text = codes "{l:2,m:hi}"

abbrev pub full : Json
full = object ((codes "l", number (pos 2)) ∷ (codes "m", text (codes "hi")) ∷ [])

abbrev pub quoted : Json
quoted =
    object ((codes "m", text (codes "hi")) ∷ (codes "p", null) ∷ (codes "l", text (codes "2")) ∷ [])

abbrev pub spaced : Json
spaced =
    object ((codes "l", number (pos 2)) ∷ (codes "m", text (codes "hi")) ∷ (codes "p", null) ∷ [])

abbrev parse : Bytes → Result Json
parse t =
    if same t (codes "{}")
    then ok (object [])
    else if same t full_text
    then ok full
    else if same t (codes "{l:'2',m:hi}")
    then ok quoted
    else if same t (codes "{l:2,m:hi,p:null}")
    then ok spaced
    else err (codes "parse error")

abbrev is_null : Json → Bool
is_null (scalar null) = true
is_null j = false

abbrev is_number : Json → Bool
is_number (scalar (number z)) = true
is_number j = false

abbrev is_string : Json → Bool
is_string (scalar (text t)) = true
is_string j = false

abbrev get_string : Json → Result Bytes
get_string (scalar (text t)) = ok t
get_string j = err (codes "type must be string")

abbrev get_number : Json → Result ℤ
get_number (scalar (number z)) = ok z
get_number j = err (codes "type must be number")

abbrev microseconds : ℤ → ℤ
microseconds (pos n) = pos (n * 1000000)
microseconds (negsuc n) = negsuc (n * 1000000 + 999999)

abbrev pub host : Host
host = record {
  Json = Json;
  Double = ℤ;
  parse = parse;
  find = find;
  is_null = is_null;
  is_number = is_number;
  is_string = is_string;
  get_string = get_string;
  get_int64 = get_number;
  get_int = get_number;
  get_double = get_number;
  format = format;
  trace = pos 0;
  critical = pos 5;
  n_levels = pos 7;
  stod = stoi;
  microseconds = microseconds;
  time_point = λ z. z;
  now = λ calls. pos (1000 + calls);
}

pub host-FormatsFields : FormatsFields host
host-FormatsFields = record {
  by_number = λ pieces args p. format-by_number pieces args (length args) p;
  in_turn = format-in_turn;
}

pub host-OrdersLevels : OrdersLevels host
host-OrdersLevels = record {
  trace_lt = refl;
  trace_self = refl;
  trace_le_critical = refl;
  critical_lt = refl;
}

pub host-NumbersLevels : NumbersLevels host
host-NumbersLevels = record { trace_zero = refl; critical_five = refl; n_levels_seven = refl }

abbrev pub site : Site host
site = record {
  Address = Bytes;
  platform = linux;
  bind_unix = λ file. ok tt;
  address_from_string = λ t. ok t;
  bind_tcp = λ a port. ok tt;
  open_sink = λ kind. ok tt;
  bytes_of_mb = λ z. elim z [ pos n ↦ n * 1000000 | negsuc n ↦ 0 ];
  ten = pos 10;
  hardware_concurrency = 2;
}
