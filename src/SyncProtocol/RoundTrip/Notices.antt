-- ===== src/SyncProtocol/RoundTrip/Notices.antt =====
-- AuthErrorMessage, FatalErrorMessage and TransitionChunkMessage of sync_protocol.go, there and back.
use convex_go.Prelude.{str, ℕ, ◌≡◌, refl, ◌⊎◌, inl, inr, some, none, arith, Option, Str}
use convex_go.Core.Error.{ok}
use convex_go.SyncProtocol.Json.{
  unmarshal_uint32, marshal_uint32, lookup, raw_object, unmarshal_exact_field, unmarshal_string,
  unmarshal_pointer, unmarshal_bool, raw_is_null,
}
use convex_go.SyncProtocol.Fields.{
  discriminator, with_field, optional_identity_version_from_raw, optional_from_raw,
}
use convex_go.SyncProtocol.Messages.{TransitionChunkMessage, AuthErrorMessage}
use convex_go.SyncProtocol.ServerCodec.Notices.{
  marshal_transition_chunk, unmarshal_transition_chunk, marshal_auth_error, unmarshal_auth_error,
  marshal_fatal_error, unmarshal_fatal_error,
}
use convex_go.SyncProtocol.RoundTrip.{IsU32, OnOption, unmarshal-marshal_uint32}

pub unmarshal-marshal_transition_chunk :
    (m : TransitionChunkMessage)
    → IsU32 m.part_number
    → IsU32 m.total_parts
    → (discriminator (marshal_transition_chunk m) ≡ ok (str "TransitionChunk"))
      × (unmarshal_transition_chunk (marshal_transition_chunk m) ≡ ok m)
unfolding marshal_transition_chunk unmarshal_transition_chunk discriminator raw_object
    unmarshal_exact_field lookup unmarshal_string
unmarshal-marshal_transition_chunk m h k =
    ground (arith, unmarshal-marshal_uint32 m.part_number, unmarshal-marshal_uint32 m.total_parts)

version_field :
    (o : Option (Option ℕ))
    → OnOption (OnOption IsU32) o
    → (o ≡ none)
      ⊎ (o ≡ some none)
      ⊎ ((n : ℕ) × (o ≡ some (some n)) × (unmarshal_uint32 (marshal_uint32 n) ≡ ok n))
version_field none h = inl refl
version_field (some none) h = inr (inl refl)
version_field (some (some n)) h = inr (inr (n, refl, unmarshal-marshal_uint32 n h))

pub unmarshal-marshal_auth_error :
    (m : AuthErrorMessage)
    → OnOption (OnOption IsU32) m.base_version
    → (discriminator (marshal_auth_error m) ≡ ok (str "AuthError"))
      × (unmarshal_auth_error (marshal_auth_error m) ≡ ok m)
unfolding marshal_auth_error unmarshal_auth_error discriminator raw_object unmarshal_exact_field
    lookup unmarshal_string unmarshal_pointer unmarshal_bool with_field
    optional_identity_version_from_raw optional_from_raw raw_is_null
unmarshal-marshal_auth_error m h = ground (arith, version_field m.base_version h)

pub unmarshal-marshal_fatal_error :
    (s : Str)
    → (discriminator (marshal_fatal_error s) ≡ ok (str "FatalError"))
      × (unmarshal_fatal_error (marshal_fatal_error s) ≡ ok s)
unfolding marshal_fatal_error unmarshal_fatal_error discriminator raw_object unmarshal_exact_field
    lookup unmarshal_string
unmarshal-marshal_fatal_error s = (refl, refl)
