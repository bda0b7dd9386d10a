-- ===== src/Commandable/Guarded.antt =====
-- Applications of Commandable whose calls may fault: what is left of an application then.
use fnal_artdaq.Base.{Bool, false, Outcome, ok, fault}
use fnal_artdaq.Commandable.Machine.{App}

-- The application while no call has faulted; after a fault it does nothing more, and a guard that
-- faults does not let its transition happen.
module _ {S : Type 0} where
  abbrev pub alive : S → App (Outcome S) → App S
  alive m a = record {
    external_request_status = a.external_request_status;
    report_string = a.report_string;
    members = m;
  }

  abbrev pub again : App (Outcome S) → Outcome (Bool × App S) → Bool × App (Outcome S)
  again a (fault why) = (false, record a { members = fault why; external_request_status = false })
  again a (ok (good, b)) = (
    good,
    record {
      external_request_status = b.external_request_status;
      report_string = b.report_string;
      members = ok b.members;
    },
  )

  unfoldable pub guarded :
      (App S → Outcome (Bool × App S)) → App (Outcome S) → Bool × App (Outcome S)
  guarded f a = elim a.members [ fault why ↦ again a (fault why) | ok m ↦ again a (f (alive m a)) ]
