-- ===== src/SyncProtocol/RoundTrip/Authenticate.antt =====
-- AuthenticateMessage of sync_protocol.go, there and back.
use convex_go.Prelude.{◌≡◌, refl, ◌⊎◌, inl, inr, some, none, arith, Option, false, str}
use convex_go.Core.Error.{ok}
use convex_go.SyncProtocol.Json.{
  lookup, raw_object, unmarshal_exact_field, unmarshal_string, raw_is_null,
}
use convex_go.SyncProtocol.Fields.{with_field, discriminator}
use convex_go.SyncProtocol.Messages.{IdentityAttributes, AuthenticateMessage}
use convex_go.SyncProtocol.Identity.{
  identifier_to_send, identity_fields, marshal_identity, unmarshal_identity,
}
use convex_go.SyncProtocol.ClientCodec.Authenticate.{
  marshal_authenticate, unmarshal_authenticate, read_acting_as,
}
use convex_go.SyncProtocol.RoundTrip.{IsU32, OnOption, unmarshal-marshal_uint32, text_cases}
use convex_go.SyncProtocol.RoundTrip.Identity.{IsIdentity, unmarshal-marshal_identity}

pub record IsAuthenticate (m : AuthenticateMessage) : Type 0 where
  pub base_version_fits : IsU32 m.base_version
  pub acting_as_fits : OnOption IsIdentity m.acting_as

-- An identity as it is read back: with the identifier that was sent, and all fields among its claims.
unfoldable pub identity_read : IdentityAttributes → IdentityAttributes
unfolding identifier_to_send identity_fields
identity_read i = record i { token_identifier = identifier_to_send i; claims = identity_fields i }

abbrev pub acting_as_read : Option IdentityAttributes → Option IdentityAttributes
acting_as_read none = none
acting_as_read (some i) = some (identity_read i)

acting_as_cases :
    (o : Option IdentityAttributes)
    → OnOption IsIdentity o
    → (o ≡ none)
      ⊎ ((i : IdentityAttributes) × (o ≡ some i)
          × (unmarshal_identity (marshal_identity i) ≡ ok (identity_read i))
          × (raw_is_null (marshal_identity i) ≡ false))
unfolding identity_read
acting_as_cases none h = inl refl
acting_as_cases (some i) h =
    inr (i, refl, unmarshal-marshal_identity i h, unfold marshal_identity raw_is_null in refl)

pub unmarshal-marshal_authenticate :
    (m : AuthenticateMessage)
    → IsAuthenticate m
    → (discriminator (marshal_authenticate m) ≡ ok (str "Authenticate"))
      × (unmarshal_authenticate (marshal_authenticate m)
          ≡ ok (record m { acting_as = acting_as_read m.acting_as }))
unfolding marshal_authenticate unmarshal_authenticate raw_object unmarshal_exact_field lookup
    unmarshal_string with_field discriminator read_acting_as
unmarshal-marshal_authenticate m h = ground (
  arith,
  acting_as_cases m.acting_as h.acting_as_fits,
  text_cases m.value,
  unmarshal-marshal_uint32 m.base_version h.base_version_fits,
)
