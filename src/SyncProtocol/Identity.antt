-- ===== src/SyncProtocol/Identity.antt =====
-- SyncUserIdentityAttributes of internal/syncprotocol/identity_attributes.go.
use convex_go.Prelude.{Bool, not, ◌&&◌, ◌||◌, Option, some, [], ◌++◌, Str, str, if◌then◌else◌}
use convex_go.Prelude.Eq.{list_beq}
use convex_go.Core.Error.{Result, ok, err, ◌>>=◌, missing_identity}
use convex_go.SyncProtocol.Json.{
  Json, JsonFields, json_string, json_object, no_entries, entry, lookup, raw_object,
}
use convex_go.SyncProtocol.Messages.{IdentityAttributes}

abbrev pub is_empty : Str → Bool
is_empty s = list_beq s []

-- Storing a key in a map.
unfoldable pub remove_field : Str → JsonFields → JsonFields
remove_field k no_entries = no_entries
remove_field k (entry j w fs) =
    let rest = remove_field k fs in if list_beq j k then rest else entry j w rest

unfoldable pub set_field : Str → Json → JsonFields → JsonFields
unfolding remove_field
set_field k w fs = entry k w (remove_field k fs)

unfoldable pub set_nonempty : Str → Str → JsonFields → JsonFields
unfolding set_field
set_nonempty k s fs = if is_empty s then fs else set_field k (json_string s) fs

abbrev string_or_empty : Option Json → Str
string_or_empty (some (json_string s)) = s
string_or_empty _ = []

-- claimString, whose Boolean no caller reads.
unfoldable pub claim_string : JsonFields → Str → Str
unfolding lookup
claim_string claims k = string_or_empty (lookup k claims)

abbrev pub derived_identifier : Str → Str → Str
derived_identifier issuer subject = issuer ++ (str "|" ++ subject)

-- An identifier that is not set is made of an issuer and a subject that are.
unfoldable pub identifier_to_send : IdentityAttributes → Str
identifier_to_send i =
    if is_empty i.token_identifier && not (is_empty i.issuer) && not (is_empty i.subject)
    then derived_identifier i.issuer i.subject
    else i.token_identifier

-- The map that MarshalJSON fills from the claims and the attributes.
unfoldable pub identity_fields : IdentityAttributes → JsonFields
unfolding identifier_to_send set_nonempty
identity_fields i =
    set_nonempty (str "tokenIdentifier") (identifier_to_send i)
      (set_nonempty (str "subject") i.subject (set_nonempty (str "issuer") i.issuer i.claims))

-- SyncUserIdentityAttributes.MarshalJSON
unfoldable pub marshal_identity : IdentityAttributes → Json
unfolding identity_fields
marshal_identity i = json_object (identity_fields i)

abbrev pub attributes : Str → Str → Str → JsonFields → IdentityAttributes
attributes token issuer subject claims = record {
  token_identifier = token;
  issuer = issuer;
  subject = subject;
  claims = claims;
}

-- SyncUserIdentityAttributes.UnmarshalJSON after decodeRawMap.
unfoldable pub identity_of_claims : Str → Str → Str → JsonFields → Result IdentityAttributes
identity_of_claims token issuer subject claims =
    if is_empty token
    then (if is_empty issuer || is_empty subject
        then err missing_identity
        else ok (attributes (derived_identifier issuer subject) issuer subject claims))
    else ok (attributes token issuer subject claims)

unfoldable pub unmarshal_identity : Json → Result IdentityAttributes
unfolding raw_object claim_string identity_of_claims
unmarshal_identity j = do
  claims ← raw_object j
  let token = claim_string claims (str "tokenIdentifier")
  let issuer = claim_string claims (str "issuer")
  let subject = claim_string claims (str "subject")
  identity_of_claims token issuer subject claims
