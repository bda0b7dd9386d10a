-- ===== src/Protocol.antt =====
-- The protocol between SHandles and RHandles: what the accounting of a receiver makes of the
-- messages of several senders, whatever the order in which they come.
pub mod OneSource
pub mod Delivery
pub mod Streams
use fnal_artdaq.Base.{
  ◌⊎◌, inl, inr, ℕ, zero, suc, ◌+◌, ◌-◌, ◌%◌, ◌≤◌, ◌<◌, ◌≡◌, List, [], ◌∷◌, Bool, true, false,
  Outcome, ok, ◌>>=◌, ◌==◌, if◌then◌else◌, All,
}
use fnal_artdaq.ArtdaqCore.{ArtdaqCore}
use fnal_artdaq.FragCounter.{size_t_mod}
use fnal_artdaq.RHandles.{RHandles, Status, sending, account}
use fnal_artdaq.RHandles.Accounts.{Source, checked}
use fnal_artdaq.RHandles.Accounting.{is_eod}

-- The fragments among the messages that have the rank `k`.
abbrev pub of_rank : {F : Type 0} → ℕ → List (ℕ × F) → List F
of_rank k [] = []
of_rank k ((rank, f) ∷ rest) =
    let others = of_rank k rest in if rank == k then f ∷ others else others

module _ {F E : Type 0} (core : ArtdaqCore F E) where
  -- The accounting of messages one after another.
  abbrev pub account_all : List (ℕ × F) → RHandles F → Outcome (RHandles F)
  account_all [] s = ok s
  account_all ((source, f) ∷ rest) s = account core source f s >>= account_all rest

  abbrev pub eods : List F → ℕ
  eods [] = 0
  eods (f ∷ fs) = (if is_eod core f then 1 else 0) + eods fs

  abbrev pub data_count : List F → ℕ
  data_count [] = 0
  data_count (f ∷ fs) = (if is_eod core f then 0 else 1) + data_count fs

  -- An end-of-data fragment announces `total`.
  abbrev pub Announces : ℕ → F → Type 0
  Announces total f = (is_eod core f ≡ false) ⊎ (core.first_word f ≡ total)

  -- Exactly one end-of-data fragment, which announces the number of the others.
  pub record IsStream (fs : List F) : Type 0 where
    pub one_eod : eods fs ≡ 1
    pub announced : All (Announces (data_count fs)) fs
    pub bounded : data_count fs < size_t_mod
