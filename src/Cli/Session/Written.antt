-- ===== src/Cli/Session/Written.antt =====
-- `save_config` of cli/src/main.rs on a disk: the configuration is written as YAML, by the
-- `write_config_atomically` that cli/src/main.rs has too. The writer of YAML is a parameter.
use brewmble.Prelude.{
  Option, Result, Result-cases, Text, arith, err, eq_text, false, inl, inr, none, ok, refl, some,
  ◌≡◌, ◌⊎◌, ◌∙◌, ap,
}
use brewmble.Prelude.Dict.{contains_key, get}
use brewmble.Prelude.Exec.{Exec}
use brewmble.Daemon.Config.Files.{
  Disk, System, write_config_atomically, write_config_atomically-get,
}
use brewmble.Cli.Config.{Config, load_config}
use brewmble.Cli.Config.Stored.{IsStored, load_config-stored}
use brewmble.Cli.Session.{Session, save_config}

module _ (system : System) (with_extension_tmp : Text → Text) (to_yaml : Config → Result Text Text)
    (path : Text) where
  abbrev serialized : Result Text Text → Exec Disk (Unit {0})
  serialized (err e) d = (err e, d)
  serialized (ok content) d = write_config_atomically system with_extension_tmp path content d

  unfoldable pub save_file : Config → Exec Disk (Unit {0})
  save_file config = serialized (to_yaml config)

  -- The file is what it was before the run if nothing was saved, and else holds what was saved last.
  abbrev pub Represents : Option Text → Option Config → Disk → Type 0
  Represents before none d = get path d ≡ before
  Represents before (some config) d =
      (content : Text) × (to_yaml config ≡ ok content) × (get path d ≡ some content)

  Represents-same :
      (before : Option Text) (saved : Option Config) (d d' : Disk)
      → get path d' ≡ get path d
      → Represents before saved d
      → Represents before saved d'
  Represents-same before none d d' h r = h ∙ r
  Represents-same before (some config) d d' h (content, e, f) = (content, e, h ∙ f)

  saved-Represents :
      (write : Config → Result Text (Unit {0})) (before : Option Text) (s : Session) (d : Disk)
      (content : Text) (u : Result Text (Unit {0}) × Disk)
      → write s.config ≡ u.0
      → Represents before s.saved d
      → to_yaml s.config ≡ ok content
      → ((u.0 ≡ ok tt) × (get path u.1 ≡ some content))
        ⊎ (¬ (u.0 ≡ ok tt) × (get path u.1 ≡ get path d))
      → ((save_config write s).0 ≡ u.0) × Represents before (save_config write s).1.saved u.1
  unfolding save_config
  saved-Represents write before s d content (ok x, d') w r e (inl (done, holds)) =
      rw (w, save_config) (refl, (content, e, holds))
  saved-Represents write before s d content (ok x, d') w r e (inr (undone, same)) =
      absurd (undone refl)
  saved-Represents write before s d content (err x, d') w r e (inl (done, holds)) =
      absurd (ground arith)
  saved-Represents write before s d content (err x, d') w r e (inr (undone, same)) =
      rw (w, save_config) (refl, Represents-same before s.saved d d' same r)

  save_file-ok :
      (config : Config) (content : Text) (d : Disk)
      → to_yaml config ≡ ok content
      → save_file config d ≡ write_config_atomically system with_extension_tmp path content d
  unfolding save_file
  save_file-ok config content d f = rw f refl

  save_config-failed :
      (write : Config → Result Text (Unit {0})) (s : Session) (e : Text)
      → write s.config ≡ err e
      → save_config write s ≡ (err e, s)
  unfolding save_config
  save_config-failed write s e w = rw (w, save_config) refl

  -- How the writing of a configuration ends.
  abbrev pub write_ends : Disk → Config → Result Text (Unit {0})
  write_ends d config = (save_file config d).0

  -- A run that knows only whether a write succeeds does what the writing on the disk does, provided
  -- that the path is not the temporary file: saving ends in the same way, and the file still is what
  -- it was before the run, or holds whole what was saved last.
  pub save_config-Represents :
      (before : Option Text) (s : Session) (d : Disk)
      → eq_text (with_extension_tmp path) path ≡ false
      → Represents before s.saved d
      → ((save_config (write_ends d) s).0 ≡ (save_file s.config d).0)
        × Represents before (save_config (write_ends d) s).1.saved (save_file s.config d).1
  unfolding save_file
  save_config-Represents before s d h r = elim (Result-cases (to_yaml s.config)) [
    | inr (e, f) ↦
        let failed : save_file s.config d ≡ (err e, d) = rw f refl in
        rw
          (
            save_config-failed (write_ends d) s e
                (ap (λ (u : Result Text (Unit {0}) × Disk). u.0) failed),
            failed,
          )
          (refl, r)
    | inl (content, f) ↦
        let same = save_file-ok s.config content d f in
        saved-Represents (write_ends d) before s d content (save_file s.config d) refl r f
          (rw same (write_config_atomically-get system with_extension_tmp path content d h))
  ]

  -- What was saved is loaded again.
  pub Represents-loads :
      (before : Option Text) (config : Config) (d : Disk) (from_yaml : Text → Result Text Config)
      (read : Text → Result Text Text)
      → Represents before (some config) d
      → IsStored config
      → ((c : Config) (content : Text) → to_yaml c ≡ ok content → from_yaml content ≡ ok c)
      → ((content : Text) → get path d ≡ some content → read path ≡ ok content)
      → load_config (contains_key path d) (read path) from_yaml ≡ ok config
  Represents-loads before config d from_yaml read (content, e, f) h yaml reads =
      rw (f, reads content f)
        (load_config-stored from_yaml content config h (yaml config content e))
