-- ===== src/Role/RoundTrip.antt =====
-- Role data that is stored or passed on is read back.
use hcvault_mashery_api_auth.Prelude.{
  ℤ, pos, String, ◌≡◌, refl, Bool, true, false, not, none, some, arith, ◌==◌, eq_iff, if◌then◌else◌,
}
use hcvault_mashery_api_auth.Value.{Value, truth, number, text, Fields, lookup}
use hcvault_mashery_api_auth.Role.{RoleKeys, RoleUsageTerm, StoredRoleUsage, zero_keys, zero_usage}
use hcvault_mashery_api_auth.Role.Json.{
  put_unless, as_text, as_number, as_truth, is_zero, encode_keys, decode_keys, encode_usage,
  decode_usage, encode_term, decode_term,
}

-- A key is found behind a field that may have been left out.
lookup-put_unless :
    (key k : String) (skip : Bool) (v : Value) (rest : Fields)
    → lookup key (put_unless skip k v rest)
      ≡ (if k == key then (if skip then lookup key rest else some v) else lookup key rest)
lookup-put_unless key k skip v rest = ground arith

-- What a decoder finds of a field that is left out where it is zero.
text_field : (s : String) → as_text "" (if s == "" then none else some (text s)) ≡ some s
text_field s = ground (arith, eq_iff s "")

number_field :
    (n default : ℤ)
    → as_number default (if is_zero n then none else some (number n))
      ≡ some (if is_zero n then default else n)
number_field n default = ground arith

truth_field : (b : Bool) → as_truth false (if not b then none else some (truth b)) ≡ some b
truth_field true = refl
truth_field false = refl

eq_zero : (n : ℤ) → is_zero n ≡ true → n ≡ pos 0
eq_zero n h = ground arith

-- The usage of a role is read back as it was stored.
pub decode-encode_usage : (u : StoredRoleUsage) → decode_usage (encode_usage u) zero_usage ≡ some u
unfolding encode_usage decode_usage
decode-encode_usage u = ground (arith, eq_zero u.explicit_num_uses, eq_zero u.explicit_term)

pub decode-encode_term :
    (t : RoleUsageTerm)
    → decode_term (encode_term t) (record { explicit_term = pos 0; explicit_num_uses = pos 0 })
      ≡ some t
unfolding encode_term decode_term
decode-encode_term t = ground (arith, eq_zero t.explicit_num_uses, eq_zero t.explicit_term)

-- A receiver that is blank where the encoding leaves zero values out, but for its QPS.
abbrev pub blank : ℤ → Bool → RoleKeys
blank qps exportable = record zero_keys { max_qps = qps; exportable = exportable }

zero_number : (n : ℤ) → (if is_zero n then pos 0 else n) ≡ n
zero_number n = ground (arith, eq_zero n)

-- Keys are read back as they were stored, but for a QPS of zero: it is left out of the stored form,
-- so that the receiver's own QPS stays.
pub decode-encode_keys :
    (k : RoleKeys) (qps : ℤ) (x : Bool)
    → decode_keys (encode_keys k) (blank qps x)
      ≡ some (record k { max_qps = if is_zero k.max_qps then qps else k.max_qps })
unfolding encode_keys decode_keys
decode-encode_keys k qps x =
    simp (lookup-put_unless, text_field, number_field, truth_field, zero_number)
