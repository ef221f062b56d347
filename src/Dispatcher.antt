-- ===== src/Dispatcher.antt =====
-- The push handler of gatekeeper/dispatcher/app.py: who may call it, what a body means, and what a claim's
-- result becomes. The verifier of tokens, `json.loads` of the body, the base64 decoder and the launcher
-- of jobs are parameters.
use mathlib.Core.Path.{subst}
use lakshmana_core.Prelude.{
  ℕ, Bool, true, String, Option, none, some, ◌≡◌, ◌⊎◌, inl, inr, refl, sym, ap, ◌∙◌, arith,
  Bool-cases, Option-cases, if◌then◌else◌,
}
use lakshmana_core.Firestore.{Collection}
use lakshmana_core.Firestore.Txn.{TxnResult, returned, txn_error}
use lakshmana_core.Runs.{GatekeeperRun, GatekeeperRunRequest}
use lakshmana_core.Store.{Claimant, ClaimResult, claim_gate}
use lakshmana_core.Wire.{Value, SchemaError, Parsed, ok, err}
use lakshmana_core.Wire.Payload.{Moment, Uuid}
use lakshmana_core.Wire.RoundTrip.{IsSendable}
use lakshmana_core.Wire.Push.{PushMessage, parse_push_envelope, parse_push_envelope-IsSendable}

-- The status of a reply, and the job that was started for it, with its owner.
pub record Reply : Type 0 where
  pub status : ℕ
  pub executed : Option (GatekeeperRunRequest × String)

TxnResult-cases : {A : Type 0} (t : TxnResult A) → (t ≡ txn_error) ⊎ ((a : A) × (t ≡ returned a))
TxnResult-cases txn_error = inl refl
TxnResult-cases (returned a) = inr (a, refl)

Parsed-cases :
    {A : Type 0} (p : Parsed A) → ((e : SchemaError) × (p ≡ err e)) ⊎ ((a : A) × (p ≡ ok a))
Parsed-cases (err e) = inl (e, refl)
Parsed-cases (ok a) = inr (a, refl)

abbrev reply : ℕ → Reply
reply status = record { status = status; executed = none }

module _ (col : Collection GatekeeperRun) (aborted : ℕ → Bool) (others : ℕ → col.State → col.State)
    (claimant : GatekeeperRunRequest → Claimant) (launches : GatekeeperRunRequest → Bool) where
  -- `_claim_and_execute`. A launcher that raises leaves the request unanswered, which the server reports
  -- as an error; the claim is committed by then.
  unfoldable pub claim_and_execute : GatekeeperRunRequest → col.State → col.State × Reply
  claim_and_execute request s =
      let c = claimant request in
      let (after, result) = claim_gate col aborted others request c s in
      elim result [
        | txn_error ↦ (after, reply 500)
        | returned won ↦
            if won.claimed
            then (if launches request
                then (after, record { status = 204; executed = some (request, c.lease_owner) })
                else (after, reply 500))
            else (after, reply 204)
      ]

  module _ {Bytes Body : Type 0} (verified : Option String → Bool) (json : Body → Option Value)
      (b64decode : String → Option Bytes) (loads : Bytes → Option Value) (str : Value → String)
      (uuid : String → Option Uuid) (fromisoformat : String → Option Moment) where
    -- `push`
    unfoldable pub push : Option String → Body → col.State → col.State × Reply
    push authorization body s =
        if verified authorization
        then elim (json body) [
          | none ↦ (s, reply 400)
          | some envelope ↦
              elim (parse_push_envelope b64decode loads str uuid fromisoformat envelope) [
                | err e ↦ (s, reply 400)
                | ok message ↦ claim_and_execute message.request s
              ]
        ]
        else (s, reply 401)

    claim_and_execute-executed :
        (request : GatekeeperRunRequest) (s : col.State) (r : GatekeeperRunRequest) (owner : String)
        → (claim_and_execute request s).1.executed ≡ some (r, owner)
        → (won : ClaimResult) × ((claim_gate col aborted others request (claimant request) s).1
            ≡ returned won)
          × (won.claimed ≡ true)
          × (request ≡ r)
          × (owner ≡ (claimant request).lease_owner)
    unfolding claim_and_execute
    claim_and_execute-executed request s r owner h =
        elim (TxnResult-cases (claim_gate col aborted others request (claimant request) s).1) [
          | inl e ↦ absurd (ground (arith, e, h))
          | inr (won, e) ↦
              (won, e, ground (arith, e, h), ground (arith, e, h), ground (arith, e, h))
        ]

    claim_and_execute-status :
        (request : GatekeeperRunRequest) (s : col.State)
        → ((claim_and_execute request s).1.status ≡ 204)
          ⊎ ((claim_and_execute request s).1.status ≡ 500)
    unfolding claim_and_execute
    claim_and_execute-status request s = ground arith

    -- A push ends in one of three ways.
    push-cases :
        (authorization : Option String) (body : Body) (s : col.State)
        → (push authorization body s ≡ (s, reply 401))
          ⊎ ((verified authorization ≡ true) × (push authorization body s ≡ (s, reply 400)))
          ⊎ ((verified authorization ≡ true)
              × ((message : PushMessage) × IsSendable uuid fromisoformat message.request
                  × (push authorization body s ≡ claim_and_execute message.request s)))
    unfolding push
    push-cases authorization body s = elim (Bool-cases (verified authorization)) [
      | inr e ↦ inl (rw (push, e) refl)
      | inl e ↦ inr (elim (Option-cases (json body)) [
        | inl f ↦ inl (e, rw (push, e, f) refl)
        | inr (v, f) ↦
            elim (Parsed-cases (parse_push_envelope b64decode loads str uuid fromisoformat v)) [
              | inl (x, g) ↦ inl (e, rw (push, e, f, g) refl)
              | inr (message, g) ↦ inr (
                e,
                (
                  message,
                  parse_push_envelope-IsSendable b64decode loads str uuid fromisoformat v message g,
                  rw (push, e, f, g) refl,
                ),
              )
            ]
      ])
    ]

    -- What starts a job: a caller whose token is accepted, a body that carries a request that can go on the
    -- wire, and a claim that has won; the job is started for that request, under the owner that the claim
    -- presented. A push that is answered with 400 or 401 starts no job and leaves the runs as they were.
    pub push-executes :
        (authorization : Option String) (body : Body) (s : col.State)
        → ((r : GatekeeperRunRequest) (owner : String)
            → (push authorization body s).1.executed ≡ some (r, owner)
            → (verified authorization ≡ true)
              × IsSendable uuid fromisoformat r
              × (owner ≡ (claimant r).lease_owner)
              × ((won : ClaimResult) × ((claim_gate col aborted others r (claimant r) s).1
                    ≡ returned won)
                  × (won.claimed ≡ true)))
          × (((push authorization body s).1.status ≡ 400)
                ⊎ ((push authorization body s).1.status ≡ 401)
              → push authorization body s ≡ (s, reply (push authorization body s).1.status))
    push-executes authorization body s = elim (push-cases authorization body s) [
      | inl e ↦ (
        λ r owner h. absurd (ground (arith, e, h)),
        λ h. e ∙ ap (λ n. (s, reply n)) (sym (ap (λ p. p.1.status) e)),
      )
      | inr (inl (v, e)) ↦ (
        λ r owner h. absurd (ground (arith, e, h)),
        λ h. e ∙ ap (λ n. (s, reply n)) (sym (ap (λ p. p.1.status) e)),
      )
      | inr (inr (v, (message, sendable, e))) ↦ (
        λ r owner h.
            let (won, f, yes_won, same, by) =
              claim_and_execute-executed message.request s r owner
                (ap (λ p. p.1.executed) (sym e) ∙ h) in
            started r owner message.request v same sendable by won f yes_won,
        λ h. absurd (let k = claim_and_execute-status message.request s in ground (arith, e, k, h)),
      )
    ]
      where
        started :
            (r : GatekeeperRunRequest) (owner : String) (q : GatekeeperRunRequest)
            → verified authorization ≡ true
            → q ≡ r
            → IsSendable uuid fromisoformat q
            → owner ≡ (claimant q).lease_owner
            → (won : ClaimResult)
            → (claim_gate col aborted others q (claimant q) s).1 ≡ returned won
            → won.claimed ≡ true
            → (verified authorization ≡ true)
              × IsSendable uuid fromisoformat r
              × (owner ≡ (claimant r).lease_owner)
              × ((won : ClaimResult) × ((claim_gate col aborted others r (claimant r) s).1
                    ≡ returned won)
                  × (won.claimed ≡ true))
        started r owner q v same sendable by won f claimed = (
          v,
          subst (IsSendable uuid fromisoformat) same sendable,
          subst (λ x. owner ≡ (claimant x).lease_owner) same by,
          (
            won,
            subst (λ x. (claim_gate col aborted others x (claimant x) s).1 ≡ returned won) same f,
            claimed,
          ),
        )
