-- ===== src/SyncProtocol/RoundTrip/Transition.antt =====
-- TransitionMessage of sync_protocol.go, there and back.
use convex_go.Prelude.{ℕ, ◌≡◌, refl, ◌⊎◌, inl, inr, some, none, arith, Option, false, [], str}
use convex_go.Core.Error.{Result, ok, >>=-eq-ok, map_ok}
use convex_go.SyncProtocol.Json.{
  Jsons, no_elements, Json, Strconv, json_null, lookup, raw_object, unmarshal_exact_field,
  unmarshal_string, raw_is_null, unmarshal_int64, marshal_int64, unmarshal_float64, marshal_float64,
}
use convex_go.SyncProtocol.Fields.{
  with_field, discriminator, optional_from_raw, optional_float64_from_raw, optional_int64_from_raw,
  marshal_optional, marshal_slice, marshal_elements, marshal_state_version, unmarshal_raw_list,
  decode_elements,
}
use convex_go.SyncProtocol.Messages.{StateModification}
use convex_go.SyncProtocol.ServerCodec.Results.{
  marshal_state_modification, decode_state_modification,
}
use convex_go.SyncProtocol.RoundTrip.{
  IsU64, OnOption, OnSlice, IsVersion, unmarshal-marshal_int64, unmarshal-marshal_float64,
  unmarshal-marshal_state_version, decode-marshal_elements,
}
use convex_go.SyncProtocol.Messages.{Slice, TransitionMessage}
use convex_go.SyncProtocol.ServerCodec.Results.{
  marshal_state_modification, decode_state_modification,
}
use convex_go.SyncProtocol.ServerCodec.Transition.{
  write_int64, marshal_transition, unmarshal_transition,
}
use convex_go.SyncProtocol.RoundTrip.Results.{IsChange, decode-marshal_change}

-- The numbers of a transition fit their Go types.
pub record IsTransition (m : TransitionMessage) : Type 0 where
  pub start_fits : IsVersion m.start_version
  pub end_fits : IsVersion m.end_version
  pub modifications_fit : OnSlice IsChange m.modifications
  pub skew_fits : OnOption (OnOption IsU64) m.client_clock_skew
  pub server_ts_fits : OnOption (OnOption IsU64) m.server_ts

-- The loop makes a slice, which is never nil.
abbrev pub made {ℓ} : {A : Type ℓ} → Slice A → Slice A
made none = some []
made (some xs) = some xs

-- An optional field in every state, with what its decoder makes of it.
abbrev Reads : (Json → Result ℕ) → Option (Option ℕ) → Option Json → Type 0
Reads unmarshal o j =
    ((o ≡ none) × (j ≡ none))
    ⊎ ((o ≡ some none) × (j ≡ some json_null))
    ⊎ ((n : ℕ) × (k : Json) × (o ≡ some (some n))
        × (j ≡ some k)
        × (unmarshal k ≡ ok n)
        × (raw_is_null k ≡ false))

reads :
    (unmarshal : Json → Result ℕ) (marshal : ℕ → Result Json)
    → ((n : ℕ) (k : Json)
        → IsU64 n
        → marshal n ≡ ok k
        → (unmarshal k ≡ ok n) × (raw_is_null k ≡ false))
    → (o : Option (Option ℕ)) (j : Option Json) → OnOption (OnOption IsU64) o
    → marshal_optional marshal o ≡ ok j
    → Reads unmarshal o j
unfolding marshal_optional
reads unmarshal marshal each none j h e = inl (refl, ground arith)
reads unmarshal marshal each (some none) j h e = inr (inl (refl, ground arith))
reads unmarshal marshal each (some (some n)) j h e =
    let (k, e1, e2) = >>=-eq-ok (marshal n) _ e in
    let (back, there) = each n k h e1 in inr (inr (n, k, refl, ground arith, back, there))

float_reads :
    (S : Strconv) (n : ℕ) (k : Json)
    → IsU64 n
    → marshal_float64 S n ≡ ok k
    → (unmarshal_float64 S k ≡ ok n) × (raw_is_null k ≡ false)
float_reads S n k h e =
    (unmarshal-marshal_float64 S n k h e, unfold marshal_float64 raw_is_null in ground arith)

int_reads :
    (n : ℕ) (k : Json)
    → IsU64 n
    → write_int64 n ≡ ok k
    → (unmarshal_int64 k ≡ ok n) × (raw_is_null k ≡ false)
int_reads n k h e = unfold marshal_int64 raw_is_null in ground (arith, unmarshal-marshal_int64 n h)

-- The two decoders of the list of raw messages agree.
raw_list :
    (S : Strconv) (xs : Slice StateModification) (j : Json)
    → OnSlice IsChange xs
    → marshal_slice (marshal_elements (marshal_state_modification S)) xs ≡ ok j
    → (js : Jsons) × (unmarshal_raw_list j ≡ ok js)
      × (map_ok some (decode_elements (decode_state_modification S) 0 js) ≡ ok (made xs))
unfolding unmarshal_raw_list marshal_slice decode_elements
raw_list S none j h e = (no_elements, ground arith, refl)
raw_list S (some xs) j h e =
    let write = marshal_state_modification S in
    let (js, e1, e2) = >>=-eq-ok (marshal_elements write xs) _ e in
    (
      js,
      ground arith,
      ground
          (arith, decode-marshal_elements IsChange write _ (decode-marshal_change S) xs 0 js h e1),
    )

pub unmarshal-marshal_transition :
    (S : Strconv) (m : TransitionMessage) (j : Json)
    → IsTransition m
    → marshal_transition S m ≡ ok j
    → (discriminator j ≡ ok (str "Transition"))
      × (unmarshal_transition S j ≡ ok (record m { modifications = made m.modifications }))
unfolding marshal_transition unmarshal_transition raw_object unmarshal_exact_field lookup
    unmarshal_string discriminator with_field optional_float64_from_raw optional_int64_from_raw
    optional_from_raw raw_is_null
unmarshal-marshal_transition S m j h e =
    let (start, e1, f1) = >>=-eq-ok (marshal_state_version m.start_version) _ e in
    let (stop, e2, f2) = >>=-eq-ok (marshal_state_version m.end_version) _ f1 in
    let (list, e3, f3) =
      >>=-eq-ok (marshal_slice (marshal_elements (marshal_state_modification S)) m.modifications) _
        f2 in
    let (skew, e4, f4) =
      >>=-eq-ok (marshal_optional (marshal_float64 S) m.client_clock_skew) _ f3 in
    let (ts, e5, f5) = >>=-eq-ok (marshal_optional write_int64 m.server_ts) _ f4 in
    ground (
      arith,
      f5,
      unmarshal-marshal_state_version m.start_version start h.start_fits e1,
      unmarshal-marshal_state_version m.end_version stop h.end_fits e2,
      raw_list S m.modifications list h.modifications_fit e3,
      reads (unmarshal_float64 S) (marshal_float64 S) (float_reads S) m.client_clock_skew skew
          h.skew_fits e4,
      reads unmarshal_int64 write_int64 int_reads m.server_ts ts h.server_ts_fits e5,
    )
