-- ===== src/Tests/Sessions.antt =====
-- The theorems on tunnel sessions and listeners, at one tunnel.
use hackline.Prelude.{ℕ, ◌≡◌, refl, ap, Bool, true, List, [], ◌∷◌, ◌++◌, Option, none, some, arith}
use hackline.Prelude.Int.{pos}
use hackline.Prelude.Text.{lit}
use hackline.Prelude.Outcome.{Result, ok, err}
use hackline.Core.Bridge.{BridgeError, BridgeBytes}
use hackline.Gateway.Error.{not_found}
use hackline.Gateway.Schema.{AuditEntry, Db}
use hackline.Gateway.Audit
use hackline.Gateway.Tunnels
use hackline.Gateway.Tunnels.{delete_in_org, delete}
use hackline.Gateway.Session.{Books}
use hackline.Gateway.Session.Recorded.{
  opened_row, closed, open_session-opened, at_open, at_end, after, Counted,
  run_bridged_connection-recorded,
}
use hackline.Gateway.Session.Stale.{delete-unrecorded}
use hackline.Gateway.Manager.{Listener, run}
use hackline.Gateway.Manager.Started.{sent, create-reconciles}
use hackline.Tests.Data.{db, owner, no_metrics}
use hackline.Tests.Tunnels.{wanted, opened, event, with_tunnel, create-run}

abbrev books : Books
books = record { db = with_tunnel; metrics = no_metrics }

abbrev nothing : Books → Books
nothing b = b

abbrev bridged : Result BridgeError BridgeBytes
bridged = ok (record { up = 5; down = 7 })

abbrev row : AuditEntry
row = opened_row with_tunnel 1 1 (lit "r") none (pos 9000)

row-left :
    (at_end nothing books 1 1
      (lit "tcp")
      (lit "r")
      none
      (pos 9000)
      bridged
      (pos 10)
      (pos 10000)).db.audit
    ≡ [] ++ row ∷ with_tunnel.audit
row-left =
    ap (λ (o : Option ℕ × Books). o.1.db.audit)
      (open_session-opened books (lit "tcp") 1 1 (lit "r") none (pos 9000) (refl, refl))

run_bridged_connection-recorded_example :
    ((at_open nothing books 1 1
        (lit "tcp")
        (lit "r")
        none
        (pos 9000)
        bridged
        (pos 10)
        (pos 10000)).db.audit
      ≡ row ∷ with_tunnel.audit)
    × ((after nothing books 1 1
          (lit "tcp")
          (lit "r")
          none
          (pos 9000)
          bridged
          (pos 10)
          (pos 10000)).db.audit
        ≡ [] ++ closed (record { up = 5; down = 7 }) (pos 10000) row ∷ with_tunnel.audit)
    × Counted nothing books 1 1 (lit "tcp") (lit "r") none (pos 9000) bridged (pos 10) (pos 10000)
run_bridged_connection-recorded_example =
    run_bridged_connection-recorded nothing books 1 1 (lit "tcp") (lit "r") none (pos 9000) bridged
      (pos 10) (pos 10000) [] with_tunnel.audit row (refl, refl) row-left refl tt
      ((λ e. absurd (omega arith)), ((λ e. absurd (omega arith)), tt))

abbrev gone : Db
gone = (delete (λ id. lit "gone") with_tunnel owner 1 (pos 6)).1

abbrev stale : Books
stale = record { db = gone; metrics = no_metrics }

delete-run : delete (λ id. lit "gone") with_tunnel owner 1 (pos 6) ≡ (ok tt, stale.db)
unfolding delete delete_in_org Audit.insert
delete-run = refl

delete-unrecorded_example :
    (Tunnels.get gone 1 ≡ err not_found)
    × ((at_open nothing stale 1 1
          (lit "tcp")
          (lit "r")
          none
          (pos 9000)
          bridged
          (pos 10)
          (pos 10000)).db
        ≡ gone)
    × ((after nothing stale 1 1
          (lit "tcp")
          (lit "r")
          none
          (pos 9000)
          bridged
          (pos 10)
          (pos 10000)).db.audit
        ≡ (at_end nothing stale 1 1
            (lit "tcp")
            (lit "r")
            none
            (pos 9000)
            bridged
            (pos 10)
            (pos 10000)).db.audit)
    × Counted nothing stale 1 1 (lit "tcp") (lit "r") none (pos 9000) bridged (pos 10) (pos 10000)
delete-unrecorded_example =
    delete-unrecorded nothing stale 1 (lit "tcp") (lit "r") none (pos 9000) bridged (pos 10)
      (pos 10000) (λ id. lit "gone") with_tunnel owner 1 (pos 6) (tt, tt) delete-run

abbrev all_bind : List Listener → ℕ → Bool
all_bind _ _ = true

create-reconciles_example : run all_bind db ([] ++ sent (some event)) ≡ run all_bind with_tunnel []
create-reconciles_example =
    create-reconciles all_bind db [] (λ t. lit "new") db owner wanted (pos 5) opened (some event)
      with_tunnel (tt, tt) refl create-run
