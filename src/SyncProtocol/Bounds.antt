-- ===== src/SyncProtocol/Bounds.antt =====
-- What the decoders of sync_protocol.go accept: numbers within their Go types, and timestamps that an
-- int64 holds. The children treat the messages of the server.
pub mod Changes
pub mod Server
use convex_go.Prelude.{
  ℕ, ◌^◌, ◌<◌, ◌≡◌, refl, sym, ◌⊎◌, inl, inr, Option-cases, Bool-cases, some, none, arith, Option,
  List, [], ◌∷◌, Str, str, All, ltb,
}
use mathlib.Core.Path.{subst}
use convex_go.Core.Error.{Result, ok, err, >>=-eq-ok, Result-cases}
use convex_go.Protocol.{StateVersion}
use convex_go.SyncProtocol.Json.{
  Json, Jsons, JsonFields, no_elements, element, lookup, unmarshal_exact_field, unmarshal_uint32,
  uint32_of, unmarshal_string, raw_object, raw_is_null,
}
use convex_go.SyncProtocol.Timestamp.{
  unmarshal_timestamp, timestamp_of_bytes, decode_sync_base64_compat,
}
use convex_go.SyncProtocol.Fields.{optional_from_raw, decode_elements, unmarshal_state_version}
use convex_go.SyncProtocol.RoundTrip.{IsU32, OnOption}

pub ok_injective {ℓ} : {A : Type ℓ} {x y : A} → ok x ≡ ok y → x ≡ y
ok_injective h = cc

-- A timestamp of the protocol.
abbrev pub IsTimestamp : ℕ → Type 0
IsTimestamp t = t < 2 ^ 63

pub unmarshal_uint32-IsU32 : (j : Json) (n : ℕ) → unmarshal_uint32 j ≡ ok n → IsU32 n
unfolding unmarshal_uint32 uint32_of
unmarshal_uint32-IsU32 j n h = ground arith

pub unmarshal_timestamp-IsTimestamp :
    (j : Json) (t : ℕ) → unmarshal_timestamp j ≡ ok t → IsTimestamp t
unfolding unmarshal_timestamp timestamp_of_bytes
unmarshal_timestamp-IsTimestamp j t h =
    let (s, e1, e2) = >>=-eq-ok (unmarshal_string j) _ h in
    let (bs, e3, e4) = >>=-eq-ok (decode_sync_base64_compat s) _ e2 in ground arith

module _ {ℓ} {A : Type ℓ} (unmarshal : Json → Result A) where
  field_cases :
      (zero_value : A) (raw : JsonFields) (k : Str) (x : A)
      → unmarshal_exact_field unmarshal zero_value raw k ≡ ok x
      → (zero_value ≡ x) ⊎ ((j : Json) × (unmarshal j ≡ ok x))
  unfolding unmarshal_exact_field
  field_cases zero_value raw k x e = elim (Option-cases (lookup k raw)) [
    | inl missing ↦ inl (ground arith)
    | inr (j, there) ↦ inr (j, ground arith)
  ]

  optional_cases :
      (raw : JsonFields) (k : Str) (o : Option (Option A))
      → optional_from_raw unmarshal raw k ≡ ok o
      → (o ≡ none)
        ⊎ (o ≡ some none)
        ⊎ ((j : Json) × (x : A) × (o ≡ some (some x)) × (unmarshal j ≡ ok x))
  unfolding optional_from_raw
  optional_cases raw k o e = elim (Option-cases (lookup k raw)) [
    | inl missing ↦ inl (ground arith)
    | inr (j, there) ↦ (elim (Bool-cases (raw_is_null j)) [
      | inl is_null ↦ inr (inl (ground arith))
      | inr not_null ↦ (elim (Result-cases (unmarshal j)) [
        | inl (x, failed) ↦ ground arith
        | inr (x, decoded) ↦ inr (inr (j, x, ground arith, decoded))
      ])
    ])
  ]

module _ {ℓ} {A : Type ℓ} (P : A → Type 0) (unmarshal : Json → Result A)
    (each : (j : Json) (x : A) → unmarshal j ≡ ok x → P x) where
  -- A field that is read, or its zero.
  pub field_fits :
      (zero_value : A) (raw : JsonFields) (k : Str) (x : A)
      → P zero_value
      → unmarshal_exact_field unmarshal zero_value raw k ≡ ok x
      → P x
  field_fits zero_value raw k x h e = elim (field_cases unmarshal zero_value raw k x e) [
    | inl same ↦ subst P same h
    | inr (j, decoded) ↦ each j x decoded
  ]

  pub optional_fits :
      (raw : JsonFields) (k : Str) (o : Option (Option A))
      → optional_from_raw unmarshal raw k ≡ ok o
      → OnOption (OnOption P) o
  optional_fits raw k o e = elim (optional_cases unmarshal raw k o e) [
    | inl missing ↦ subst (OnOption (OnOption P)) (sym missing) tt
    | inr (inl is_null) ↦ subst (OnOption (OnOption P)) (sym is_null) tt
    | inr (inr (j, x, there, decoded)) ↦
        subst (OnOption (OnOption P)) (sym there) (each j x decoded)
  ]

  pub elements_fit :
      (i : ℕ) (js : Jsons) (xs : List A) → decode_elements unmarshal i js ≡ ok xs → All P xs
  unfolding decode_elements
  elements_fit i no_elements xs e = subst (All P) (ok_injective e) tt
  elements_fit i (element j js) xs e = elim (Result-cases (unmarshal j)) [
    | inl (x, failed) ↦ ground arith
    | inr (x, decoded) ↦
        (let (ys, e1, e2) =
            >>=-eq-ok (decode_elements unmarshal (ℕ.suc i) js) (λ ys. ok (x ∷ ys)) (ground arith) in
          subst (All P) (ok_injective e2) (each j x decoded, elements_fit (ℕ.suc i) js ys e1))
  ]

-- A version with the timestamp that a server may send.
pub record IsServerVersion (v : StateVersion) : Type 0 where
  pub query_set_fits : IsU32 v.query_set
  pub identity_fits : IsU32 v.identity
  pub ts_fits : IsTimestamp v.ts

pub version_fits :
    (j : Json) (v : StateVersion) → unmarshal_state_version j ≡ ok v → IsServerVersion v
unfolding unmarshal_state_version
version_fits j v h =
    let (raw, e1, f1) = >>=-eq-ok (raw_object j) _ h in
    let (query_set, e2, f2) =
      >>=-eq-ok (unmarshal_exact_field unmarshal_uint32 0 raw (str "querySet")) _ f1 in
    let (identity, e3, f3) =
      >>=-eq-ok (unmarshal_exact_field unmarshal_uint32 0 raw (str "identity")) _ f2 in
    let (ts, e4, f4) =
      >>=-eq-ok (unmarshal_exact_field unmarshal_timestamp 0 raw (str "ts")) _ f3 in
    subst IsServerVersion (ok_injective f4) (record {
      query_set_fits =
          field_fits IsU32 unmarshal_uint32 unmarshal_uint32-IsU32 0 raw (str "querySet") query_set
            (omega arith) e2;
      identity_fits =
          field_fits IsU32 unmarshal_uint32 unmarshal_uint32-IsU32 0 raw (str "identity") identity
            (omega arith) e3;
      ts_fits =
          field_fits IsTimestamp unmarshal_timestamp unmarshal_timestamp-IsTimestamp 0 raw
            (str "ts") ts (omega arith) e4;
    })
