-- ===== src/Examples/Stores.antt =====
-- The statements about internal/state, dry runs and internal/ipv4 at concrete inputs.
use goedge_ip_cert.Prelude.{◌≡◌, ◌⊎◌, refl, [], ◌∷◌}
use goedge_ip_cert.Prelude.Int.{pos}
use goedge_ip_cert.Error.{Error}
use goedge_ip_cert.Action.{ok, err}
use goedge_ip_cert.World.{World}
use goedge_ip_cert.Ipv4.{Addr, codes, parse_public}
use goedge_ip_cert.Ipv4.Canonical.{Canonical, parse_public-Canonical}
use goedge_ip_cert.State.Model.{policy_bound}
use goedge_ip_cert.State.Store.{set_active}
use goedge_ip_cert.State.Activation.{Activated, set_active_lem}
use goedge_ip_cert.Action.{◌>>=◌}
use goedge_ip_cert.World.{query, sql, external}
use goedge_ip_cert.State.Tables.{order_by, insert_by}
use goedge_ip_cert.State.Challenges.{journal, list_pending_challenges, complete_challenge}
use goedge_ip_cert.Challenge.Provider.{recover, recover_all, recover_one, resolve_owned}
use goedge_ip_cert.Lifecycle.Run.{challenge_store}
use goedge_ip_cert.Lifecycle.Journaled.{recover_empties}
use goedge_ip_cert.Examples.{calm, failed, tables, world}

abbrev google : Addr
google = record { a = 8; b = 8; c = 8; d = 8 }

google_is_public : parse_public (codes "8.8.8.8") ≡ ok google
unfolding parse_public
google_is_public = refl

parse_public-Canonical_example : Canonical (codes "8.8.8.8") google
parse_public-Canonical_example = parse_public-Canonical (codes "8.8.8.8") google google_is_public

-- An operation whose policy has been checked.
abbrev bound_world : World (Unit {0})
bound_world = record world {
  tables = record tables {
    operations = record failed { stage = policy_bound; cert_id = pos 7 } ∷ [];
  };
}

set_active_lem_example :
    ((e : Error) × ((set_active calm "a" policy_bound "account" (pos 50) bound_world).0 ≡ err e)
      × ((set_active calm "a" policy_bound "account" (pos 50) bound_world).1.tables
          ≡ bound_world.tables))
    ⊎ (((set_active calm "a" policy_bound "account" (pos 50) bound_world).0 ≡ ok tt)
        × Activated "a" "account" policy_bound
            (pos 50)
            bound_world.tables
            (set_active calm "a" policy_bound "account" (pos 50) bound_world).1.tables)
set_active_lem_example = set_active_lem calm "a" "account" policy_bound (pos 50) bound_world

-- A challenge whose row a crash has left behind.
abbrev pending_world : World (Unit {0})
pending_world = record world {
  tables = record tables {
    pending_challenges =
        record {
          operation_id = "a";
          domain = "8.8.8.8";
          token = "t";
          row_id = pos 5;
          created_at = pos 0;
        }
        ∷ [];
  };
}

recovers : (recover (challenge_store calm) (journal calm) pending_world).0 ≡ ok tt
unfolding recover recover_all recover_one resolve_owned list_pending_challenges complete_challenge
    query sql external order_by insert_by ◌>>=◌
recovers = refl

recover_empties_example :
    (recover (challenge_store calm) (journal calm) pending_world).1.tables.pending_challenges ≡ []
recover_empties_example = recover_empties calm pending_world tt recovers
