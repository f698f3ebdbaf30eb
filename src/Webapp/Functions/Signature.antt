-- ===== src/Webapp/Functions/Signature.antt =====
-- v0-verify-signature: the check of a signature, and who the signer is. `has` is whether what `has` of
-- ramda gives for one argument is truthy.
use mathlib.Core.Path.{subst}
use theword_monorepo.Prelude.{
  ℕ, ◌≡◌, ◌≢◌, ◌⊎◌, eq_iff, refl, ◌∙◌, ap, String, Bool, true, false, ◌&&◌, Option, none, some,
  List, arith, if◌then◌else◌, inl, inr, Option-cases, str_eq,
}
use theword_monorepo.Webapp.Functions.{
  NormalizedTheWord, big_numbers_equal, is_the_word_owner, is_the_word_delegate,
}

pub data ErrorReason : Type 0 where
  empty_body : ErrorReason
  missing_msg : ErrorReason
  missing_sig : ErrorReason
  missing_signer : ErrorReason

-- The fields of the parsed body; one that is missing is `undefined`.
pub record Body : Type 0 where
  pub message : Option String
  pub signature : Option String
  pub signer : Option String

pub record ParticipantData : Type 0 where
  pub is_delegate : Bool
  pub is_owner : Bool

pub record Verification : Type 0 where
  pub body : Body
  pub recovered_address : String
  pub valid_signature : Bool
  pub participant_data : Option ParticipantData

pub data Response : Type 0 where
  refused : ErrorReason → Response
  verified : Verification → Response

infixl 20 ◌>>=◌
abbrev ◌>>=◌ {ℓ κ} : {A : Type ℓ} {B : Type κ} → Option A → (A → Option B) → Option B
none >>= f = none
some a >>= f = f a

-- A missing body counts as empty; `none` is `false`.
unfoldable pub invalid_body_check : (String → Bool) → Option String → Option ErrorReason
invalid_body_check has none = some empty_body
invalid_body_check has (some body) =
    if str_eq body ""
    then some empty_body
    else if has "msg"
    then (if has "sig"
        then (if has "signer" then none else some missing_signer)
        else some missing_sig)
    else some missing_msg

bind-some {ℓ κ} :
    {A : Type ℓ} {B : Type κ} (m : Option A) (f : A → Option B) {b : B}
    → (m >>= f) ≡ some b
    → (a : A) × ((m ≡ some a) × (f a ≡ some b))
bind-some none f h = cc
bind-some (some a) f h = (a, (refl, h))

module _ (has : String → Bool) (parse : String → Option Body)
    (verify_message : Option String → Option String → Option String)
    (big_number : String → Option ℕ) (theword_query : Option (List NormalizedTheWord)) where
  -- The comparison of the signer, which throws if there is none.
  abbrev pub same_signer : Option String → String → Option Bool
  same_signer none recovered = none
  same_signer (some signer) recovered = big_numbers_equal big_number signer recovered

  -- What is added for a valid signature, if it is asked for.
  abbrev pub participant : Option String → Option ParticipantData
  participant none = none
  participant (some signer) = do
    theword ← theword_query
    is_delegate ← is_the_word_delegate big_number signer theword
    is_owner ← is_the_word_owner big_number signer theword
    some (record { is_delegate = is_delegate; is_owner = is_owner })

  abbrev pub participation : Bool → Option String → Option (Option ParticipantData)
  participation false signer = some none
  participation true signer = participant signer >>= (λ p. some (some p))

  abbrev pub verify : Bool → String → Option Response
  verify fetch_participation text = do
    body ← parse text
    recovered ← verify_message body.message body.signature
    valid ← same_signer body.signer recovered
    participant_data ← participation (fetch_participation && valid) body.signer
    some (
        verified (record {
          body = body;
          recovered_address = recovered;
          valid_signature = valid;
          participant_data = participant_data;
        }))

  -- The handler, on its body and the parameter of the query; `none` is an exception.
  unfoldable pub handler : Bool → Option String → Option Response
  handler fetch_participation body = elim (invalid_body_check has body) [
    | some reason ↦ some (refused reason)
    | none ↦ elim body [ none ↦ none | some text ↦ verify fetch_participation text ]
  ]

  -- The data is what the functions on delegates and owners say of the signer.
  abbrev pub IsAnswered : String → ParticipantData → Type 0
  IsAnswered signer p =
      (theword : List NormalizedTheWord) × ((theword_query ≡ some theword)
        × (is_the_word_delegate big_number signer theword ≡ some p.is_delegate)
        × (is_the_word_owner big_number signer theword ≡ some p.is_owner))

  participant-IsAnswered :
      (signer : String) (p : ParticipantData)
      → participant (some signer) ≡ some p
      → IsAnswered signer p
  participant-IsAnswered signer p h =
      let (theword, (e, h1)) = bind-some theword_query _ h in
      let (d, (e1, h2)) = bind-some (is_the_word_delegate big_number signer theword) _ h1 in
      let (o, (e2, h3)) = bind-some (is_the_word_owner big_number signer theword) _ h2 in
      (theword, (e, ground arith, ground arith))

  participation-IsAnswered :
      (asked : Bool) (signer : Option String) (p : ParticipantData)
      → participation asked signer ≡ some (some p)
      → (asked ≡ true) × ((s : String) × ((signer ≡ some s) × IsAnswered s p))
  participation-IsAnswered false signer p h = absurd (cc)
  participation-IsAnswered true none p h = absurd (cc)
  participation-IsAnswered true (some s) p h =
      let (q, (e, k)) = bind-some (participant (some s)) _ h in
      (refl, (s, (refl, participant-IsAnswered s p (e ∙ cc))))

  -- The signature was recovered to the number of the signer, whom the data is about.
  abbrev pub IsSigned : Verification → ParticipantData → Type 0
  IsSigned v p =
      (signer : String) × ((v.body.signer ≡ some signer)
        × (verify_message v.body.message v.body.signature ≡ some v.recovered_address)
        × (big_numbers_equal big_number signer v.recovered_address ≡ some true)
        × IsAnswered signer p)

  same_signer-true :
      (signer : Option String) (s recovered : String) (asked valid : Bool)
      → signer ≡ some s
      → same_signer signer recovered ≡ some valid
      → (asked && valid) ≡ true
      → big_numbers_equal big_number s recovered ≡ some true
  same_signer-true none s recovered asked valid e h t = cc
  same_signer-true (some r) s recovered asked valid e h t =
      let same : r ≡ s = cc in
      let truth : valid ≡ true = ground arith in
      subst (λ (u : String). big_numbers_equal big_number u recovered ≡ some true) same
        (h ∙ ap some truth)

  verify-IsSigned :
      (fetch_participation : Bool) (text : String) (v : Verification) (p : ParticipantData)
      → verify fetch_participation text ≡ some (verified v)
      → v.participant_data ≡ some p
      → IsSigned v p
  verify-IsSigned fetch_participation text v p h k =
      let (body, (e1, h1)) = bind-some (parse text) _ h in
      let (recovered, (e2, h2)) = bind-some (verify_message body.message body.signature) _ h1 in
      let (valid, (e3, h3)) = bind-some (same_signer body.signer recovered) _ h2 in
      let (d, (e4, h4)) =
        bind-some (participation (fetch_participation && valid) body.signer) _ h3 in
      let e : record {
        body = body;
        recovered_address = recovered;
        valid_signature = valid;
        participant_data = d;
      }
          ≡ v =
        cc in
      let asked : participation (fetch_participation && valid) body.signer ≡ some (some p) =
        e4 ∙ ap some (ap (λ (u : Verification). u.participant_data) e ∙ k) in
      let (both, (s, (there, a))) =
        participation-IsAnswered (fetch_participation && valid) body.signer p asked in
      let same = same_signer-true body.signer s recovered fetch_participation valid there e3 both in
      subst (λ (u : Verification). IsSigned u p) e (s, (there, e2, same, a))

  verify-ne-refused :
      (fetch_participation : Bool) (text : String) (reason : ErrorReason)
      → verify fetch_participation text ≢ some (refused reason)
  verify-ne-refused fetch_participation text reason h =
      let (body, (e1, h1)) = bind-some (parse text) _ h in
      let (recovered, (e2, h2)) = bind-some (verify_message body.message body.signature) _ h1 in
      let (valid, (e3, h3)) = bind-some (same_signer body.signer recovered) _ h2 in
      let (d, (e4, h4)) =
        bind-some (participation (fetch_participation && valid) body.signer) _ h3 in
      cc

  -- `has` of ramda is curried, so for one argument it gives a function, which is truthy. Then the only
  -- refusal is of a body that is missing or empty: no check of the fields refuses one.
  pub only_empty_is_refused :
      (fetch_participation : Bool) (body : Option String) (reason : ErrorReason)
      → ((field : String) → has field ≡ true)
      → handler fetch_participation body ≡ some (refused reason)
      → (reason ≡ empty_body) × ((body ≡ none) ⊎ (body ≡ some ""))
  unfolding handler invalid_body_check
  only_empty_is_refused fetch_participation none reason curried h = (cc, inl refl)
  only_empty_is_refused fetch_participation (some text) reason curried h = ground (
    arith,
    eq_iff text "",
    curried "msg",
    curried "sig",
    curried "signer",
    verify-ne-refused fetch_participation text reason,
  )

  -- Data on the participation is in the answer only if the signature was recovered to the number of the
  -- signer, and it says of the signer what the functions on delegates and owners say.
  pub handler-IsSigned :
      (fetch_participation : Bool) (body : Option String) (v : Verification) (p : ParticipantData)
      → handler fetch_participation body ≡ some (verified v)
      → v.participant_data ≡ some p
      → IsSigned v p
  unfolding handler
  handler-IsSigned fetch_participation body v p h k =
      elim (Option-cases (invalid_body_check has body)) [
        | inr (reason, e) ↦
            let wrong : some (refused reason) ≡ some (verified v) = rw (e, handler) at h in cc
        | inl e ↦ from body (rw (e, handler) at h)
      ]
    where
      from :
          (body : Option String)
          → ◌≡◌ {A = Option Response}
              (elim body [ none ↦ none | some text ↦ verify fetch_participation text ])
              (some (verified v))
          → IsSigned v p
      from none h = cc
      from (some text) h = verify-IsSigned fetch_participation text v p h k
