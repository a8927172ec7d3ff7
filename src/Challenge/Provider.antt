-- ===== src/Challenge/Provider.antt =====
-- internal/challenge/provider.go: presenting a challenge row and taking it away again, by the journal
-- that survives a crash. The mutex and the context are not modelled: the lock of the process makes
-- the calls sequential.
use goedge_ip_cert.Prelude.{String, ◌||◌, List, [], ◌∷◌, ◌=s=◌, if◌then◌else◌}
use goedge_ip_cert.Prelude.Int.{ℤ, pos, ltb_ℤ}
use goedge_ip_cert.Error.{Error, known, message, wrapped, is, challenge_not_found, ambiguous}
use goedge_ip_cert.Action.{
  Result, Action, pass, fail, attempt, on, refuse_if, wrap_error, ◌>>=◌, ◌>>◌,
}
use goedge_ip_cert.Ipv4.{codes, parse_public}
use goedge_ip_cert.Challenge.Model.{Challenge, Pending, Store, Journal}

pub record Provider (S : Type 0) : Type 0 where
  pub operation_id : String
  pub store : Store S
  pub journal : Journal S
  -- a nil hook is the one that always passes
  pub hook : String → Action S (Unit {0})
  -- time.Now().Unix()
  pub unix_now : Action S ℤ

-- `if err != nil && !errors.Is(err, ErrNotFound) { return err }`
abbrev pub unless_not_found : {S : Type 0} → Result (Unit {0}) → Action S (Unit {0})
unless_not_found r = on r (λ _. pass tt) (λ e. if is e challenge_not_found then pass tt else fail e)

abbrev pub one_row : {S : Type 0} → List Challenge → Action S Challenge
one_row [] = fail (known challenge_not_found)
one_row (row ∷ []) = pass row
one_row (row ∷ _ ∷ _) = fail (wrapped "pending challenge matches several rows" (known ambiguous))

abbrev lift : {S A : Type 0} → Result A → Action S A
lift r = on r (λ a. pass a) (λ e. fail e)

module _ {S : Type 0} where
  unfoldable pub resolve_owned : Store S → Pending → Action S Challenge
  resolve_owned store pending =
      if ltb_ℤ (pos 0) pending.row_id
      then pass (record {
        id = pending.row_id;
        task_id = pos 0;
        domain = pending.domain;
        token = pending.token;
        key = "";
        created_at = pending.created_at;
      })
      else do rows ← store.find_owned pending.domain pending.token pending.created_at; one_row rows

  -- The part of Present after SetChallengeRowID has failed: the row is taken away, and the journal
  -- entry only if no row is left.
  unfoldable pub undo_create : Provider S → Pending → Challenge → Error → Action S (Unit {0})
  undo_create p pending created e = do
    cleanup ← attempt (p.store.remove created)
    on cleanup (λ _. forget) (λ c. if is c challenge_not_found then forget else pass tt)
    fail (wrapped "record challenge row ID" e)
    where
      forget : Action S (Unit {0})
      forget = do attempt (p.journal.complete_challenge pending); pass tt

  unfoldable pub present : Provider S → String → String → String → Action S (Unit {0})
  unfolding undo_create
  present p domain token key_authorization = do
    wrap_error (wrapped "challenge domain") (lift (parse_public (codes domain)))
    refuse_if (token =s= "" || key_authorization =s= "")
        (message "challenge token/keyAuthorization is empty")
    now ← p.unix_now
    let pending : Pending = record {
      operation_id = p.operation_id;
      domain = domain;
      token = token;
      row_id = pos 0;
      created_at = now;
    }
    wrap_error (wrapped "record pending challenge") (p.journal.begin_challenge pending)
    result ← attempt (
        p.store.create (record {
          id = pos 0;
          task_id = pos 0;
          domain = domain;
          token = token;
          key = key_authorization;
          created_at = now;
        }))
    on result
        (λ created. do
          p.hook "after-challenge-create"
          recorded ← attempt (p.journal.set_challenge_row_id pending created.id)
          on recorded (λ _. pass tt) (λ e. undo_create p pending created e))
        (λ e. do attempt (p.journal.complete_challenge pending); fail e)

  unfoldable pub clean_up : Provider S → String → String → Action S (Unit {0})
  clean_up p domain token = do
    found ← attempt (p.journal.pending_challenge p.operation_id domain token)
    on found
        (λ pending. do
          item ← resolve_owned p.store pending
          removed ← attempt (p.store.remove item)
          unless_not_found removed
          p.journal.complete_challenge pending)
        (λ e.
          if is e challenge_not_found then pass tt else fail (wrapped "read pending challenge" e))

  -- One round of the loop of Recover.
  unfoldable pub recover_one : Store S → Journal S → Pending → Action S (Unit {0})
  recover_one store journal pending = do
    found ← attempt (resolve_owned store pending)
    on found
        (λ item. do
          removed ← attempt (store.remove item)
          unless_not_found removed
          journal.complete_challenge pending)
        (λ e. if is e challenge_not_found then journal.complete_challenge pending else fail e)

  unfoldable pub recover_all : Store S → Journal S → List Pending → Action S (Unit {0})
  recover_all store journal [] = pass tt
  recover_all store journal (pending ∷ rest) = do
    recover_one store journal pending
    recover_all store journal rest

  unfoldable pub recover : Store S → Journal S → Action S (Unit {0})
  recover store journal = do
    items ← journal.list_pending_challenges
    recover_all store journal items
