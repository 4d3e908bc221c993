-- ===== src/Cli/Tests/Bodies.antt =====
-- How the bodies of requests and responses are written in the tests: as a list of words, each of
-- which ends with 0, and whose code points are one more.
use brewmble.Prelude.{
  Bool, List, Option, Text, [], false, map, none, ok, refl, some, suc, true, zero, ℕ, ◌++◌, ◌∷◌,
  ◌≡◌, cons_head,
}
use brewmble.Rest.{RebootRequest, StatusResponse, UpgradeResponse}
use brewmble.Daemon.Serving.{Codec}
use brewmble.Prelude.{
  Bool, List, Option, Text, [], cons_head, false, map, none, ok, refl, some, suc, true, zero, ℕ,
  ◌++◌, ◌∷◌, ◌≡◌,
}

abbrev pub words : List Text → Text
words [] = []
words (w ∷ ws) = map suc w ++ (0 ∷ words ws)

abbrev pub unwords : Text → List Text
unwords [] = []
unwords (zero ∷ s) = [] ∷ unwords s
unwords (suc c ∷ s) = cons_head c (unwords s)

unwords-word : (w rest : Text) → unwords (map suc w ++ (0 ∷ rest)) ≡ w ∷ unwords rest
unwords-word [] rest = refl
unwords-word (c ∷ w) rest = rw (unwords-word w rest) refl

pub unwords-words : (ws : List Text) → unwords (words ws) ≡ ws
unwords-words [] = refl
unwords-words (w ∷ ws) = rw (unwords-word w (words ws), unwords-words ws) refl

abbrev pub bit : Bool → ℕ
bit false = 0
bit true = 1

abbrev is_set : ℕ → Bool
is_set zero = false
is_set (suc n) = true

pub is_set-bit : (b : Bool) → is_set (bit b) ≡ b
is_set-bit false = refl
is_set-bit true = refl

abbrev pub upgrade_words : Option (List Text) → List Text
upgrade_words none = []
upgrade_words (some us) = [] ∷ us

abbrev version_words : Option Text → List Text
version_words none = [] ∷ [] ∷ []
version_words (some v) = (0 ∷ []) ∷ v ∷ []

abbrev pub delay_words : Option ℕ → List Text
delay_words none = []
delay_words (some d) = (d ∷ []) ∷ []

abbrev delay_of : List Text → RebootRequest
delay_of ((d ∷ []) ∷ []) = record { delay_secs = some d }
delay_of ws = record { delay_secs = none }

pub delay_of-words : (d : Option ℕ) → delay_of (delay_words d) ≡ record { delay_secs = d }
delay_of-words none = refl
delay_of-words (some d) = refl

abbrev pub upgrade_of : List Text → Option UpgradeResponse
upgrade_of [] = none
upgrade_of (m ∷ []) = some (record { message = m; updates = none })
upgrade_of (m ∷ w ∷ us) = some (record { message = m; updates = some us })

pub upgrade_of-words :
    (r : UpgradeResponse) → upgrade_of (r.message ∷ upgrade_words r.updates) ≡ some r
upgrade_of-words r = go r.message r.updates
  where
    go :
        (m : Text) (us : Option (List Text))
        → upgrade_of (m ∷ upgrade_words us) ≡ some (record { message = m; updates = us })
    go m none = refl
    go m (some us) = refl

abbrev pub status_words : StatusResponse → List Text
status_words r =
    r.message
    ∷ (bit r.is_upgrading ∷ bit r.allow_reboot ∷ bit r.auto_clean ∷ bit r.auto_remove ∷ [])
    ∷ (version_words r.daemon_version ++ r.updates)

abbrev version_of : Text → Text → Option Text
version_of [] v = none
version_of (c ∷ s) v = some v

abbrev pub status_of : List Text → Option StatusResponse
status_of (m ∷ (u ∷ r ∷ c ∷ a ∷ []) ∷ k ∷ v ∷ us) = some (record {
  message = m;
  updates = us;
  is_upgrading = is_set u;
  daemon_version = version_of k v;
  allow_reboot = is_set r;
  auto_clean = is_set c;
  auto_remove = is_set a;
})
status_of ws = none

pub status_of-words : (r : StatusResponse) → status_of (status_words r) ≡ some r
status_of-words r = go r.daemon_version
  where
    go :
        (v : Option Text)
        → status_of (status_words (record r { daemon_version = v }))
          ≡ some (record r { daemon_version = v })
    go none =
        rw
          (
            is_set-bit r.is_upgrading,
            is_set-bit r.allow_reboot,
            is_set-bit r.auto_clean,
            is_set-bit r.auto_remove,
          )
          refl
    go (some v) =
        rw
          (
            is_set-bit r.is_upgrading,
            is_set-bit r.allow_reboot,
            is_set-bit r.auto_clean,
            is_set-bit r.auto_remove,
          )
          refl

abbrev is_set_head : Text → Bool
is_set_head [] = false
is_set_head (c ∷ s) = is_set c

abbrev pub codec : Codec
codec = record {
  read_upgrade = λ t. ok (record { dry_run = is_set_head t });
  read_reboot = λ t. ok (delay_of (unwords t));
  write_health = λ r. r.status;
  write_status = λ r. words (status_words r);
  write_upgrade = λ r. words (r.message ∷ upgrade_words r.updates);
  write_reboot = λ r. r.message;
}
