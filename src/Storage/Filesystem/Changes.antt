-- ===== src/Storage/Filesystem/Changes.antt =====
-- internal/storage/filesystem.go: a property of the tree across calls that change it or read it.
use gha_cache_server.Base.{◌≡◌, refl, Bool, true, false, Option, none, some, List, [], ◌∷◌}
use gha_cache_server.Action.{Error, ok, Action, pure}
use gha_cache_server.Action.Keeps.{Keeps}
use gha_cache_server.Action.Ensures.{Ensures, Ensures-fail}
use gha_cache_server.Storage.Filesystem.{end_of_copy}
use gha_cache_server.Storage.Filesystem.Files.{Tree, Disk, run_call, system_call, changed, call}

-- A call keeps what its change of the tree keeps, and keeps it if it fails.
module _ (P : Tree → Type 0) (f : Tree → Option Tree) where
  changed-kept :
      (o : Option Tree) (d : Disk)
      → ((t' : Tree) → o ≡ some t' → P t')
      → P d.tree
      → P (changed o d).1.tree
  changed-kept none d k h = h
  changed-kept (some t) d k h = k t refl

  pub Keeps-change :
      ((t t' : Tree) → f t ≡ some t' → P t → P t')
      → Keeps (λ d. P d.tree) (system_call λ (d : Disk). changed (f d.tree) d)
  unfolding system_call
  Keeps-change k = record { from = λ d h. by_fault d.faults d h }
    where
      by_fault :
          (fs : List Bool) (d : Disk)
          → P d.tree
          → P (run_call fs (λ (d : Disk). changed (f d.tree) d) d).1.tree
      by_fault [] d h = changed-kept (f d.tree) d (λ t' e. k d.tree t' e h) h
      by_fault (true ∷ fs) d h = h
      by_fault (false ∷ fs) d h =
          changed-kept (f d.tree) (record d { faults = fs }) (λ t' e. k d.tree t' e h) h

  -- What holds of the changed tree holds behind a call that does not fail.
  pub Ensures-change :
      ((t t' : Tree) → f t ≡ some t' → P t')
      → Ensures (λ d. Unit {0}) (system_call λ (d : Disk). changed (f d.tree) d) (λ _ d. P d.tree)
  unfolding system_call
  Ensures-change k = record { from = λ d a _ e. by_fault d.faults d a e }
    where
      by_change :
          (o : Option Tree) (d : Disk) (a : Unit {0})
          → ((t' : Tree) → o ≡ some t' → P t')
          → (changed o d).0 ≡ ok a
          → P (changed o d).1.tree
      by_change none d a k e = absurd (cc e)
      by_change (some t) d a k e = k t refl

      by_fault :
          (fs : List Bool) (d : Disk) (a : Unit {0})
          → (run_call fs (λ (d : Disk). changed (f d.tree) d) d).0 ≡ ok a
          → P (run_call fs (λ (d : Disk). changed (f d.tree) d) d).1.tree
      by_fault [] d a e = by_change (f d.tree) d a (k d.tree) e
      by_fault (true ∷ fs) d a e = absurd (cc e)
      by_fault (false ∷ fs) d a e = by_change (f d.tree) (record d { faults = fs }) a (k d.tree) e

pub Keeps-call : (P : Tree → Type 0) → Keeps (λ d. P d.tree) call
unfolding call
Keeps-call P = record { from = λ d h. by_fault d.faults d h }
  where
    by_fault :
        (fs : List Bool) (d : Disk) → P d.tree → P (run_call fs (λ (d : Disk). (ok tt, d)) d).1.tree
    by_fault [] d h = h
    by_fault (true ∷ fs) d h = h
    by_fault (false ∷ fs) d h = h

pub Ensures-kept :
    {S A : Type 0} (P : S → Type 0) (m : Action S A) → Keeps P m → Ensures P m (λ _ s. P s)
Ensures-kept P m k = record { from = λ s a h e. k.from s h }

pub Ensures-end_of_copy :
    (P : Disk → Type 0) (o : Option Error) → Ensures P (end_of_copy o) (λ _ d. P d × (o ≡ none))
unfolding pure
Ensures-end_of_copy P none = record { from = λ d a h e. (h, refl) }
Ensures-end_of_copy P (some x) = Ensures-fail x
