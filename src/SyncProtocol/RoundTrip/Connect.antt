-- ===== src/SyncProtocol/RoundTrip/Connect.antt =====
-- ConnectMessage of sync_protocol.go, there and back.
use convex_go.Prelude.{
  ◌⊎◌, inl, inr, ℕ, ◌≡◌, refl, some, none, arith, Option, str, not, ◌&&◌, ◌||◌, if◌then◌else◌,
}
use convex_go.Core.Error.{ok, >>=-eq-ok}
use convex_go.SyncProtocol.Json.{
  Json, lookup, raw_object, unmarshal_exact_field, unmarshal_string, raw_is_null, unmarshal_pointer,
  marshal_int64, unmarshal_int64,
}
use convex_go.SyncProtocol.Timestamp.{marshal_timestamp, unmarshal_timestamp}
use convex_go.SyncProtocol.Fields.{with_field, discriminator}
use convex_go.SyncProtocol.Identity.{is_empty}
use convex_go.SyncProtocol.Messages.{ConnectMessage}
use convex_go.SyncProtocol.ClientCodec.Connect.{
  marshal_connect, unmarshal_connect, read_close_reason, reason_or_unknown, unknown_reason,
  marshal_pointer,
}
use convex_go.SyncProtocol.RoundTrip.{
  IsU32, IsU64, OnOption, unmarshal-marshal_uint32, unmarshal-marshal_int64,
  unmarshal-marshal_timestamp, text_cases,
}

pub record IsConnect (m : ConnectMessage) : Type 0 where
  pub connection_count_fits : IsU32 m.connection_count
  pub client_ts_fits : OnOption IsU64 m.client_ts

-- The reason as a decoder reads it: an empty or null one is "unknown".
unfoldable pub with_reason_read : ConnectMessage → ConnectMessage
with_reason_read m =
    let is_null = m.last_close_reason_present && m.last_close_reason_null in
    record m {
      last_close_reason =
          (if is_null then unknown_reason else reason_or_unknown m.last_close_reason);
      last_close_reason_present = is_null || not (is_empty m.last_close_reason);
      last_close_reason_null = is_null;
    }

pointer_timestamp :
    (o : Option ℕ) (j : Option Json)
    → marshal_pointer marshal_timestamp o ≡ ok j
    → ((o ≡ none) × (j ≡ none))
      ⊎ ((t : ℕ) × (k : Json) × (o ≡ some t)
          × (j ≡ some k)
          × (unmarshal_pointer unmarshal_timestamp k ≡ ok (some t)))
pointer_timestamp none j h = inl (refl, ground arith)
pointer_timestamp (some t) j h =
    let (k, e1, e2) = >>=-eq-ok (marshal_timestamp t) _ h in
    inr (
      t,
      k,
      refl,
      ground arith,
      unfold unmarshal_pointer marshal_timestamp in
          ground (arith, unmarshal-marshal_timestamp t k e1),
    )

pointer_int64 :
    (o : Option ℕ) (j : Option Json)
    → OnOption IsU64 o
    → marshal_pointer (λ t. ok (marshal_int64 t)) o ≡ ok j
    → ((o ≡ none) × (j ≡ none))
      ⊎ ((t : ℕ) × (k : Json) × (o ≡ some t)
          × (j ≡ some k)
          × (unmarshal_pointer unmarshal_int64 k ≡ ok (some t)))
pointer_int64 none j b h = inl (refl, ground arith)
pointer_int64 (some t) j b h = inr (
  t,
  marshal_int64 t,
  refl,
  ground arith,
  unfold unmarshal_pointer marshal_int64 in ground (arith, unmarshal-marshal_int64 t b),
)

pub unmarshal-marshal_connect :
    (m : ConnectMessage) (j : Json)
    → IsConnect m
    → marshal_connect m ≡ ok j
    → (discriminator j ≡ ok (str "Connect")) × (unmarshal_connect j ≡ ok (with_reason_read m))
unfolding marshal_connect unmarshal_connect raw_object unmarshal_exact_field lookup unmarshal_string
    with_field discriminator read_close_reason raw_is_null with_reason_read
unmarshal-marshal_connect m j h e =
    let (ts, e1, e2) = >>=-eq-ok (marshal_pointer marshal_timestamp m.max_observed_timestamp) _ e in
    let (client_ts, e3, e4) =
      >>=-eq-ok (marshal_pointer (λ t. ok (marshal_int64 t)) m.client_ts) _ e2 in
    ground (
      arith,
      e4,
      pointer_timestamp m.max_observed_timestamp ts e1,
      pointer_int64 m.client_ts client_ts h.client_ts_fits e3,
      text_cases m.last_close_reason,
      unmarshal-marshal_uint32 m.connection_count h.connection_count_fits,
    )
