-- ===== src/Client/Verdicts.antt =====
-- What a validator says: it may also raise `TypeError`, where it looks for a list or a dictionary in
-- a set.
use herdres.Prelude.{Bool, List, Text, false, true}
use herdres.Json.Values.{Json, one_of}

pub data Verdict : Type 0 where
  accepted refused type_error : Verdict

-- `if not b: return None`
abbrev pub demand : Bool → Verdict → Verdict
demand true v = v
demand false v = refused

-- `value not in fields` raises for a value that has no hash.
abbrev pub hashed : Json → Verdict → Verdict
hashed (Json.array vs) v = type_error
hashed (Json.object ms) v = type_error
hashed _ v = v

abbrev pub string_among : List Text → Json → Bool
string_among texts (Json.string t) = one_of t texts
string_among texts _ = false

-- `value in texts`
abbrev pub member_of : List Text → Json → Verdict → Verdict
member_of texts j v = hashed j (demand (string_among texts j) v)

abbrev pub is_accepted : Verdict → Bool
is_accepted Verdict.accepted = true
is_accepted _ = false
