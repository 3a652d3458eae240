-- ===== src/Access/Runs.antt =====
-- internal/server/approval.go: every order of requests, decisions, removals, changes of mode and restarts.
use kuro.Base.{ℕ, ◌≡◌, false, [], Option, none, some, Text}
use mathlib.Core.Path.{subst}
use kuro.Access.Request.{Net, Request}
use kuro.Access.Approvals.{
  Status, Mode, off, Access, Reads, load_approvals, store_mode, apply_mode, decide_device,
  remove_device, restart_access, admit_loaded,
}
use kuro.Access.Guard.{Secrets, admit}
use kuro.Access.Mirror.{
  Change, Mirrors, ReadsMode, load_approvals-Mirrors, admit_mode-Mirrors, store_mode-Mirrors,
  apply_mode-Mirrors, decide_device-Mirrors, remove_device-Mirrors,
}

-- The server, with the change of mode that is under way. A second one does not begin before it ends: where
-- two cross, the mode of the one stored first may stay in memory for good.
pub record World : Type 0 where
  pub access : Access
  pub change : Option Change

module _ (net : Net) where
  pub data Step : World → World → Type 0 where
    -- A request with the token, whatever secrets and names come with it.
    asks :
        {w : World} (secrets : Secrets) (reads : Reads) (r : Request) (now : ℕ)
        → ReadsMode reads
        → Step w (record w { access = (admit net secrets reads r now w.access).0 })
    decides :
        {w : World} (reads : Reads) (id : Text) (status : Status) (now : ℕ)
        → ReadsMode reads
        → Step w (record w { access = (decide_device reads id status now w.access).0 })
    removes :
        {w : World} (reads : Reads) (id : Text)
        → ReadsMode reads
        → Step w (record w { access = remove_device reads id w.access })
    lists :
        {w : World} (reads : Reads)
        → ReadsMode reads
        → Step w (record w { access = load_approvals reads w.access })
    stores :
        {w : World} (mode : Mode)
        → w.change ≡ none
        → Step w (record {
          access = store_mode mode w.access;
          change = some (record { before = w.access.setting; mode = mode });
        })
    applies :
        {w : World} (reads : Reads) (c : Change)
        → w.change ≡ some c
        → Step w (record { access = apply_mode reads c.mode w.access; change = none })
    restarts : {w : World} → Step w (record { access = restart_access w.access; change = none })

  abbrev pub first_access : Access
  first_access = record {
    loaded = false;
    mode = off;
    status = [];
    seen = [];
    setting = none;
    devices = [];
  }

  pub data Reached : World → Type 0 where
    begins : Reached (record { access = first_access; change = none })
    steps : {w w' : World} → Reached w → Step w w' → Reached w'

  admit-Mirrors :
      (change : Option Change) (secrets : Secrets) (reads : Reads) (r : Request) (now : ℕ)
      (a : Access)
      → ReadsMode reads
      → Mirrors change a
      → Mirrors change (admit net secrets reads r now a).0
  unfolding admit admit_loaded
  admit-Mirrors change secrets reads r now a ok m =
      let a' = load_approvals reads a in
      admit_mode-Mirrors change a'.mode reads _ _ secrets.fresh _ _ now a'
        (load_approvals-Mirrors change reads a ok m)

  Step-Mirrors :
      {w w' : World} → Step w w' → Mirrors w.change w.access → Mirrors w'.change w'.access
  unfolding restart_access
  Step-Mirrors {w} (asks secrets reads r now ok) m =
      admit-Mirrors w.change secrets reads r now w.access ok m
  Step-Mirrors {w} (decides reads id status now ok) m =
      decide_device-Mirrors w.change reads id status now w.access ok m
  Step-Mirrors {w} (removes reads id ok) m = remove_device-Mirrors w.change reads id w.access ok m
  Step-Mirrors {w} (lists reads ok) m = load_approvals-Mirrors w.change reads w.access ok m
  Step-Mirrors {w} (stores mode free) m =
      store_mode-Mirrors mode w.access (subst (λ c. Mirrors c w.access) free m)
  Step-Mirrors {w} (applies reads c under_way) m =
      apply_mode-Mirrors reads c w.access (subst (λ c. Mirrors c w.access) under_way m)
  Step-Mirrors restarts m = (tt, λ l. cc)

  -- However requests, decisions, removals, the two parts of changes of mode, of which no two overlap, and
  -- restarts interleave, and whichever reads of the devices and writes fail, as long as the mode can
  -- be read: once the program has read the decisions, its memory says of every device what the database
  -- says, and its mode is the one on record, or off when none is; while a change of mode is under way
  -- the mode may still be the one that it replaces.
  pub Reached-Mirrors : {w : World} → Reached w → Mirrors w.change w.access
  Reached-Mirrors begins = (tt, λ l. cc)
  Reached-Mirrors (steps r step) = Step-Mirrors step (Reached-Mirrors r)
