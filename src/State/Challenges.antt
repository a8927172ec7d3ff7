-- ===== src/State/Challenges.antt =====
-- internal/state/challenge.go: the journal of challenges that are being presented.
use Prim.Native.Nat.{Ordering}
use Prim.Native.String.{compare}
use goedge_ip_cert.Prelude.{
  Bool, true, false, ◌||◌, ℕ, String, not, ◌&&◌, Option, none, some, List, ◌==◌, ◌=s=◌,
}
use goedge_ip_cert.Prelude.Int.{ℤ, pos, ltb_ℤ, eq_ℤ, not_positive}
use goedge_ip_cert.Error.{known, message, wrapped, state_conflict, challenge_not_found}
use goedge_ip_cert.Action.{Result, ok, err, Action, refuse_if, wrap_error, ◌>>=◌, ◌>>◌}
use goedge_ip_cert.World.{World, Outside, sql, query, transaction}
use goedge_ip_cert.Challenge.Model.{Pending, Journal}
use goedge_ip_cert.State.Model.{challenge_present}
use goedge_ip_cert.State.Tables.{
  Tables, count, update, delete, select, order_by, at_stage, same_challenge, insert_pending,
}

abbrev pub key_is : String → String → String → Pending → Bool
key_is operation_id domain token p =
    p.operation_id =s= operation_id && p.domain =s= domain && p.token =s= token

abbrev item_or_not_found : Option Pending → Result Pending
item_or_not_found none = err (known challenge_not_found)
item_or_not_found (some p) = ok p

-- UPDATE pending_challenges SET row_id=? WHERE … AND row_id=0
abbrev set_row_id : Pending → ℤ → Tables → Result ℕ × Tables
set_row_id p row_id t =
    let hit = λ (q : Pending). same_challenge p q && eq_ℤ q.row_id (pos 0) in
    (
      ok (count hit t.pending_challenges),
      record t {
        pending_challenges = update hit (λ q. record q { row_id = row_id }) t.pending_challenges;
      },
    )

abbrev text_le : String → String → Bool
text_le a b = elim (compare a b) [ Ordering.gt ↦ false | _ ↦ true ]

-- … ORDER BY created_at, operation_id; SQLite compares texts by their bytes
abbrev pub in_order : List Pending → List Pending
in_order = order_by (λ p q.
    ltb_ℤ p.created_at q.created_at
    || eq_ℤ p.created_at q.created_at && text_le p.operation_id q.operation_id)

module _ {X : Type 0} (o : Outside X) where
  unfoldable pub begin_challenge : Pending → Action (World X) (Unit {0})
  begin_challenge p = transaction o do
    exists ← query o (λ t. ok (count (at_stage p.operation_id challenge_present) t.operations))
    refuse_if (not (exists == 1)) (known state_conflict)
    wrap_error (wrapped "write pending challenge")
        (sql o (insert_pending (record p { row_id = pos 0 })))

  unfoldable pub set_challenge_row_id : Pending → ℤ → Action (World X) (Unit {0})
  set_challenge_row_id p row_id = do
    refuse_if (not_positive row_id) (message "challenge row ID must be positive")
    n ← sql o (set_row_id p row_id)
    refuse_if (not (n == 1)) (known state_conflict)

  unfoldable pub pending_challenge : String → String → String → Action (World X) Pending
  pending_challenge operation_id domain token =
      query o
        (λ t. item_or_not_found (select (key_is operation_id domain token) t.pending_challenges))

  unfoldable pub list_pending_challenges : Action (World X) (List Pending)
  list_pending_challenges = query o (λ t. ok (in_order t.pending_challenges))

  unfoldable pub complete_challenge : Pending → Action (World X) (Unit {0})
  complete_challenge p = sql o (λ t.
      (ok tt, record t { pending_challenges = delete (same_challenge p) t.pending_challenges }))

  abbrev pub journal : Journal (World X)
  journal = record {
    begin_challenge = begin_challenge;
    set_challenge_row_id = set_challenge_row_id;
    pending_challenge = pending_challenge;
    list_pending_challenges = list_pending_challenges;
    complete_challenge = complete_challenge;
  }
