-- ===== src/ErrandRunner/Token.antt =====
-- `_verify_approval_token` of src/agents/nodes/errand_runner.py. HMAC-SHA256 is a parameter.
use langgraph_agents.Base.{
  Option-cases, inl, inr, ℕ, ◌≡◌, refl, Bool, true, false, Option, none, some, List, [], ◌∷◌, ◌++◌,
  ◌&&◌, arith, Text, text, text_eq, text_eq_iff, text_eq_refl, split, rsplit_once, free_of,
  rsplit_once-append, rsplit_once-Joins, split-append, split-cons, Joins, ap, sym, ◌∙◌,
}
use langgraph_agents.State.{ActionClass, class_a, class_b, class_c, class_d}

abbrev pub class_name : ActionClass → Text
class_name class_a = text "A"
class_name class_b = text "B"
class_name class_c = text "C"
class_name class_d = text "D"

-- What a token authorises.
pub record Grant : Type 0 where
  pub task_id : Text
  pub action_class : ActionClass
  pub server : Text
  pub method : Text

abbrev pub bar : ℕ
bar = b'|'

abbrev pub colon : ℕ
colon = b':'

-- The test on the pieces of the payload: at least five, the first four as expected.
unfoldable pub matches_grant : Grant → List Text → Bool
matches_grant g (p_task ∷ p_class ∷ p_server ∷ p_method ∷ nonce ∷ rest) =
    text_eq p_task g.task_id
    && (text_eq p_class (class_name g.action_class)
        && (text_eq p_server g.server && text_eq p_method g.method))
matches_grant g _ = false

module _ (hmac : Text → Text → Text) where
  unfoldable pub verify_approval_token : Text → Grant → Text → Bool
  verify_approval_token token g secret = elim (rsplit_once colon token) [
    | none ↦ false
    | some p ↦ matches_grant g (split bar p.0) && text_eq (hmac secret p.0) p.1
  ]

-- What the broker signs: task_id|class|server|method|nonce.
abbrev pub token_payload : Grant → Text → Text
token_payload g nonce =
    g.task_id
    ++ bar ∷ (class_name g.action_class ++ bar ∷ (g.server ++ bar ∷ (g.method ++ bar ∷ nonce)))

abbrev pub mint : (Text → Text → Text) → Text → Grant → Text → Text
mint hmac secret g nonce =
    let payload = token_payload g nonce in payload ++ colon ∷ hmac secret payload

-- The parts of a grant do not contain the separator.
pub record IsPlain (g : Grant) : Type 0 where
  pub task : free_of bar g.task_id ≡ true
  pub server : free_of bar g.server ≡ true
  pub method : free_of bar g.method ≡ true

class_name-plain : (c : ActionClass) → free_of bar (class_name c) ≡ true
class_name-plain class_a = refl
class_name-plain _ = refl

split-payload :
    (g : Grant) (nonce : Text)
    → IsPlain g
    → split bar (token_payload g nonce)
      ≡ g.task_id ∷ class_name g.action_class ∷ g.server ∷ g.method ∷ split bar nonce
split-payload g nonce h = rw (split-append bar g.task_id _ h.task) (
    rw (split-append bar (class_name g.action_class) _ (class_name-plain g.action_class))
      (rw (split-append bar g.server _ h.server) (rw (split-append bar g.method nonce h.method))))

-- The signed payload and the signature of a token that was accepted.
pub record IsSigned (hmac : Text → Text → Text) (secret token : Text) (g : Grant) : Type 0 where
  pub payload : Text
  pub rest : List Text
  pub signed : token ≡ payload ++ colon ∷ hmac secret payload
  pub pieces :
      split bar payload ≡ g.task_id ∷ class_name g.action_class ∷ g.server ∷ g.method ∷ rest

-- The fields of a grant, which the token has to spell.
abbrev pub SameGrant : Grant → Grant → Type 0
SameGrant g h =
    (g.task_id ≡ h.task_id)
    × (class_name g.action_class ≡ class_name h.action_class)
    × (g.server ≡ h.server)
    × (g.method ≡ h.method)

matches_grant-pieces :
    (g : Grant) (ps : List Text)
    → matches_grant g ps ≡ true
    → (rest : List Text) × (ps ≡ g.task_id ∷ class_name g.action_class ∷ g.server ∷ g.method ∷ rest)
unfolding matches_grant
matches_grant-pieces g [] m = ground arith
matches_grant-pieces g (a ∷ []) m = ground arith
matches_grant-pieces g (a ∷ b ∷ []) m = ground arith
matches_grant-pieces g (a ∷ b ∷ c ∷ []) m = ground arith
matches_grant-pieces g (a ∷ b ∷ c ∷ d ∷ []) m = ground arith
matches_grant-pieces g (a ∷ b ∷ c ∷ d ∷ e ∷ rest) m = (
  e ∷ rest,
  ground (
    arith,
    text_eq_iff a g.task_id,
    text_eq_iff b (class_name g.action_class),
    text_eq_iff c g.server,
    text_eq_iff d g.method,
  ),
)

module _ (hmac : Text → Text → Text) (secret : Text) where
  accepts_of :
      (token : Text) (g : Grant) (p : Text × Text)
      → rsplit_once colon token ≡ some p
      → matches_grant g (split bar p.0) ≡ true
      → hmac secret p.0 ≡ p.1
      → verify_approval_token hmac token g secret ≡ true
  unfolding verify_approval_token
  accepts_of token g p e fits signature =
      rw (e, verify_approval_token) (rw (fits, signature) (text_eq_refl p.1))

  matches-payload :
      (g : Grant) (nonce : Text)
      → IsPlain g
      → matches_grant g (split bar (token_payload g nonce)) ≡ true
  unfolding matches_grant
  matches-payload g nonce h =
      let (p, ps, pieces) = split-cons bar nonce in
      simp (split-payload g nonce h, pieces, text_eq_refl)

  -- A token as the broker mints it is accepted for its grant, where no part of the grant contains
  -- the separator and the signature, a hex digest, contains no colon.
  pub verify-mint :
      (g : Grant) (nonce : Text)
      → IsPlain g
      → free_of colon (hmac secret (token_payload g nonce)) ≡ true
      → verify_approval_token hmac (mint hmac secret g nonce) g secret ≡ true
  verify-mint g nonce h hex =
      let payload = token_payload g nonce in
      accepts_of (mint hmac secret g nonce) g (payload, hmac secret payload)
        (rsplit_once-append colon payload (hmac secret payload) hex) (matches-payload g nonce h)
        refl

  -- The two tests of the accepting branch.
  accepts-some :
      (g : Grant) (p : Text × Text)
      → (matches_grant g (split bar p.0) && text_eq (hmac secret p.0) p.1) ≡ true
      → (matches_grant g (split bar p.0) ≡ true) × (hmac secret p.0 ≡ p.1)
  accepts-some g p h = ground (arith, text_eq_iff (hmac secret p.0) p.1)

  IsSigned-of :
      (token : Text) (g : Grant) (o : Option (Text × Text))
      → Joins colon token o
      → (elim o [
        | none ↦ false
        | some p ↦ matches_grant g (split bar p.0) && text_eq (hmac secret p.0) p.1
      ])
        ≡ true
      → IsSigned hmac secret token g
  IsSigned-of token g none j h = cc
  IsSigned-of token g (some p) j h =
      let (fits, signature) = accepts-some g p h in
      let (rest, pieces) = matches_grant-pieces g (split bar p.0) fits in
      record {
        payload = p.0;
        rest = rest;
        signed = j ∙ ap (λ (t : Text). p.0 ++ colon ∷ t) (sym signature);
        pieces = pieces;
      }

  -- Every token that is accepted for a grant is a payload, a colon and the HMAC of that payload
  -- under the secret, and the payload's first four pieces are the task, the class, the server and
  -- the method of the grant: a token for another task or action is not accepted.
  pub verify-IsSigned :
      (token : Text) (g : Grant)
      → verify_approval_token hmac token g secret ≡ true
      → IsSigned hmac secret token g
  unfolding verify_approval_token
  verify-IsSigned token g h =
      IsSigned-of token g (rsplit_once colon token) (rsplit_once-Joins colon token) h

-- The pieces of a payload spell one grant.
head_grant :
    (g h : Grant) (ps qs rest rest' : List Text)
    → ps ≡ g.task_id ∷ class_name g.action_class ∷ g.server ∷ g.method ∷ rest
    → qs ≡ h.task_id ∷ class_name h.action_class ∷ h.server ∷ h.method ∷ rest'
    → ps ≡ qs
    → SameGrant g h
head_grant g h ps qs rest rest' p q e = ground arith

module _ (hmac : Text → Text → Text) (secret token : Text) (g : Grant) where
  accepted_parts :
      verify_approval_token hmac token g secret ≡ true
      → (p : Text × Text) × (rsplit_once colon token ≡ some p)
        × (matches_grant g (split bar p.0) ≡ true)
  unfolding verify_approval_token
  accepted_parts v = elim (Option-cases (rsplit_once colon token)) [
    | inl e ↦ absurd (unfold verify_approval_token in ground arith)
    | inr (p, e) ↦ (p, e, (accepts-some hmac secret g p (rw (e, verify_approval_token) at v)).0)
  ]

-- A token is accepted for one grant only.
pub one_grant :
    (hmac : Text → Text → Text) (secret token : Text) (g h : Grant)
    → verify_approval_token hmac token g secret ≡ true
    → verify_approval_token hmac token h secret ≡ true
    → SameGrant g h
one_grant hmac secret token g h vg vh =
    let (p, e, fits) = accepted_parts hmac secret token g vg in
    let (q, e', fits') = accepted_parts hmac secret token h vh in
    let (rest, pieces) = matches_grant-pieces g (split bar p.0) fits in
    let (rest', pieces') = matches_grant-pieces h (split bar q.0) fits' in
    let same : p ≡ q = cc in
    head_grant g h _ _ rest rest' pieces pieces' (ap (λ (r : Text × Text). split bar r.0) same)
