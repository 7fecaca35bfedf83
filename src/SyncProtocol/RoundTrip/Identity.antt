-- ===== src/SyncProtocol/RoundTrip/Identity.antt =====
-- identity_attributes.go: identities with their claims, written and read back.
use convex_go.Prelude.{
  ◌≡◌, refl, sym, ap, ◌∙◌, none, arith, true, false, [], ◌∷◌, Str, str, if◌then◌else◌,
}
use convex_go.Prelude.Eq.{list_beq, list_beq_iff}
use convex_go.Core.Error.{ok, >>=-eq-ok}
use convex_go.SyncProtocol.Json.{Json, JsonFields, no_entries, entry, lookup, raw_object}
use convex_go.SyncProtocol.Messages.{IdentityAttributes}
use convex_go.SyncProtocol.Identity.{
  is_empty, remove_field, set_field, set_nonempty, claim_string, derived_identifier,
  identifier_to_send, identity_fields, marshal_identity, identity_of_claims, unmarshal_identity,
}

list_beq_refl : (k : Str) → list_beq k k ≡ true
list_beq_refl k = (list_beq_iff k k).1 refl

lookup-remove_same : (k : Str) (fs : JsonFields) → lookup k (remove_field k fs) ≡ none
unfolding lookup remove_field
lookup-remove_same k no_entries = refl
lookup-remove_same k (entry j w fs) = ground (arith, lookup-remove_same k fs)

lookup-remove_other :
    (j k : Str) (fs : JsonFields)
    → list_beq j k ≡ false
    → lookup k (remove_field j fs) ≡ lookup k fs
unfolding lookup remove_field
lookup-remove_other j k no_entries h = refl
lookup-remove_other j k (entry i w fs) h =
    ground (arith, lookup-remove_other j k fs h, list_beq_iff i j, ap (λ x. list_beq x k))

-- Reading a claim after a store under its own key, and under another key.
claim_string-set_same :
    (k s : Str) (fs : JsonFields)
    → claim_string (set_nonempty k s fs) k ≡ (if is_empty s then claim_string fs k else s)
unfolding claim_string set_nonempty set_field lookup
claim_string-set_same k s fs = ground (arith, lookup-remove_same k fs, list_beq_refl k)

claim_string-set_other :
    (j k s : Str) (fs : JsonFields)
    → list_beq j k ≡ false
    → claim_string (set_nonempty j s fs) k ≡ claim_string fs k
unfolding claim_string set_nonempty set_field lookup
claim_string-set_other j k s fs h = ground (arith, lookup-remove_other j k fs h)

-- The claims hold no attribute that is not set, and there is an identifier or what makes one.
pub record IsIdentity (i : IdentityAttributes) : Type 0 where
  pub issuer_kept : is_empty i.issuer ≡ true → claim_string i.claims (str "issuer") ≡ []
  pub subject_kept : is_empty i.subject ≡ true → claim_string i.claims (str "subject") ≡ []
  pub identified : is_empty (identifier_to_send i) ≡ false

empty_is_nil : (s : Str) → is_empty s ≡ true → s ≡ []
empty_is_nil s h = (list_beq_iff s []).0 h

module _ (i : IdentityAttributes) (h : IsIdentity i) where
  written_issuer : claim_string (identity_fields i) (str "issuer") ≡ i.issuer
  unfolding identity_fields
  written_issuer = ground (
    arith,
    claim_string-set_other (str "tokenIdentifier") (str "issuer") (identifier_to_send i)
        (set_nonempty (str "subject") i.subject (set_nonempty (str "issuer") i.issuer i.claims))
        refl,
    claim_string-set_other (str "subject") (str "issuer") i.subject
        (set_nonempty (str "issuer") i.issuer i.claims) refl,
    claim_string-set_same (str "issuer") i.issuer i.claims,
    h.issuer_kept,
    empty_is_nil i.issuer,
  )

  written_subject : claim_string (identity_fields i) (str "subject") ≡ i.subject
  unfolding identity_fields
  written_subject = ground (
    arith,
    claim_string-set_other (str "tokenIdentifier") (str "subject") (identifier_to_send i)
        (set_nonempty (str "subject") i.subject (set_nonempty (str "issuer") i.issuer i.claims))
        refl,
    claim_string-set_same (str "subject") i.subject (set_nonempty (str "issuer") i.issuer i.claims),
    claim_string-set_other (str "issuer") (str "subject") i.issuer i.claims refl,
    h.subject_kept,
    empty_is_nil i.subject,
  )

  written_identifier :
      claim_string (identity_fields i) (str "tokenIdentifier") ≡ identifier_to_send i
  unfolding identity_fields
  written_identifier = ground (
    arith,
    claim_string-set_same (str "tokenIdentifier") (identifier_to_send i)
        (set_nonempty (str "subject") i.subject (set_nonempty (str "issuer") i.issuer i.claims)),
    h.identified,
  )

  -- What is written reads back, with the identifier that was sent and the fields as claims.
  pub unmarshal-marshal_identity :
      unmarshal_identity (marshal_identity i)
      ≡ ok (record i { token_identifier = identifier_to_send i; claims = identity_fields i })
  unfolding unmarshal_identity marshal_identity raw_object identity_of_claims
  unmarshal-marshal_identity =
      ground (arith, written_issuer, written_subject, written_identifier, h.identified)

derived_nonempty : (s t : Str) → is_empty s ≡ false → is_empty (derived_identifier s t) ≡ false
derived_nonempty [] t h = ground arith
derived_nonempty (c ∷ s) t h = refl

of_claims :
    (token issuer subject : Str) (claims : JsonFields) (i : IdentityAttributes)
    → identity_of_claims token issuer subject claims ≡ ok i
    → (i.issuer ≡ issuer)
      × (i.subject ≡ subject)
      × (i.claims ≡ claims)
      × (is_empty i.token_identifier ≡ false)
unfolding identity_of_claims
of_claims token issuer subject claims i h = ground (arith, derived_nonempty issuer subject)

-- A decoded identity is one that can be written, and its identifier is sent as it is.
decoded-IsIdentity :
    (j : Json) (i : IdentityAttributes)
    → unmarshal_identity j ≡ ok i
    → IsIdentity i × (identifier_to_send i ≡ i.token_identifier)
unfolding unmarshal_identity identifier_to_send
decoded-IsIdentity j i h =
    let (claims, e1, e2) = >>=-eq-ok (raw_object j) _ h in
    let (issuer, subject, kept, named) =
      of_claims (claim_string claims (str "tokenIdentifier")) (claim_string claims (str "issuer"))
        (claim_string claims (str "subject")) claims i e2 in
    (
      record {
        issuer_kept = λ empty.
            ap (λ c. claim_string c (str "issuer")) kept ∙ sym issuer ∙ empty_is_nil _ empty;
        subject_kept = λ empty.
            ap (λ c. claim_string c (str "subject")) kept ∙ sym subject ∙ empty_is_nil _ empty;
        identified = ground arith;
      },
      ground arith,
    )

-- An identity that was decoded keeps its three attributes when it is written and decoded again; its
-- claims become the object that was written.
pub unmarshal_identity-marshal_identity :
    (j : Json) (i : IdentityAttributes)
    → unmarshal_identity j ≡ ok i
    → unmarshal_identity (marshal_identity i) ≡ ok (record i { claims = identity_fields i })
unmarshal_identity-marshal_identity j i h =
    let (known, sent) = decoded-IsIdentity j i h in
    rw (unmarshal-marshal_identity i known, sent) refl
