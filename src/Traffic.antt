-- ===== src/Traffic.antt =====
-- internal/traffic/traffic.go: traffic counters that survive restarts.
-- Go's int64 is a bit pattern below 2 ^ 64, with the wrap-around of its sums and differences
-- written out. JSON text is a parameter (`Codec`); a call of the session metrics is an argument,
-- `none` where no such function was given; what the file system answers is an argument too.
pub mod Laws
pub mod History
pub mod Tests
use tailscale_derp.Base.{
  ℕ, ◌+◌, ◌-◌, ◌%◌, ◌^◌, ◌≡◌, String, str_eq, Bool, true, false, not, Option, none, some, List, [],
  ◌∷◌, if◌then◌else◌, ◌==◌,
}

abbrev pub int64_mod : ℕ
int64_mod = 2 ^ 64

abbrev pub add64 : ℕ → ℕ → ℕ
add64 a b = (a + b) % int64_mod

abbrev pub sub64 : ℕ → ℕ → ℕ
sub64 a b = (a + int64_mod - b % int64_mod) % int64_mod

pub record Stats : Type 0 where
  pub bytes_recv : ℕ
  pub bytes_sent : ℕ
  pub accepts : ℕ
  pub saved_at : ℕ

abbrev pub zero_stats : Stats
zero_stats = record { bytes_recv = 0; bytes_sent = 0; accepts = 0; saved_at = 0 }

pub record Persister : Type 0 where
  pub path : String
  pub persisted : Stats
  pub offset : Stats
  pub interval : ℕ
  pub enabled : Bool

pub data Error : Type 0 where
  path_required read_failed bad_json mkdir_failed write_failed rename_failed : Error

-- encoding/json at `Stats`.
pub record Codec : Type 1 where
  pub Text : Type 0
  pub marshal : Stats → Text
  pub unmarshal : Text → Option Stats

pub data ReadFile (T : Type 0) : Type 0 where
  contents : T → ReadFile T
  not_exist other_error : ReadFile T

-- The answers of os.MkdirAll, os.WriteFile and os.Rename.
pub record SaveIo : Type 0 where
  pub mkdir : Bool
  pub write : Bool
  pub rename : Bool

abbrev pub Metrics : Type 0
Metrics = Option (ℕ × ℕ × ℕ)

unfoldable pub new_persister : Bool → String → ℕ → Persister
new_persister enabled path interval = record {
  path = path;
  persisted = zero_stats;
  offset = zero_stats;
  interval = interval;
  enabled = enabled;
}

unfoldable pub current_session : Metrics → Stats
current_session none = zero_stats
current_session (some (recv, sent, accepts)) = record {
  bytes_recv = recv;
  bytes_sent = sent;
  accepts = accepts;
  saved_at = 0;
}

-- `total.X += current.X - p.offset.X` on each counter.
unfoldable pub advance : Stats → Stats → Stats → Stats
advance base current offset = record base {
  bytes_recv = add64 base.bytes_recv (sub64 current.bytes_recv offset.bytes_recv);
  bytes_sent = add64 base.bytes_sent (sub64 current.bytes_sent offset.bytes_sent);
  accepts = add64 base.accepts (sub64 current.accepts offset.accepts);
}

unfoldable pub total_enabled : Persister → Metrics → Stats
total_enabled p m =
    if not p.enabled then zero_stats else advance p.persisted (current_session m) p.offset

unfoldable pub total : Option Persister → Metrics → Stats
unfolding total_enabled
total none m = zero_stats
total (some p) m = total_enabled p m

pub next_persisted : Persister → Metrics → ℕ → Stats
next_persisted p m now = record (advance p.persisted (current_session m) p.offset) {
  saved_at = now;
}

pub saved : Persister → Metrics → ℕ → Persister
saved p m now = record p {
  persisted = next_persisted p m now;
  offset = record (current_session m) { saved_at = 0 };
}

module _ (c : Codec) where
  open c use {Text, marshal, unmarshal}

  load_read : Persister → Metrics → ReadFile Text → Persister × Option Error
  load_read p m not_exist = (record p { persisted = zero_stats; offset = current_session m }, none)
  load_read p m other_error = (p, some read_failed)
  load_read p m (contents raw) = elim (unmarshal raw) [
    | none ↦ (p, some bad_json)
    | some stats ↦ (record p { persisted = stats; offset = current_session m }, none)
  ]

  pub load : Persister → Metrics → ReadFile Text → Persister × Option Error
  unfolding load_read
  load p m file =
      if not p.enabled
      then (p, none)
      else if str_eq p.path ""
      then (p, some path_required)
      else load_read p m file

  -- The file at `path`, and the file at `path` + ".tmp".
  pub record Disk : Type 0 where
    pub file : ReadFile Text
    pub temporary : ReadFile Text

  -- A write that fails may leave any text in the temporary file: `partial`.
  save_files :
      Persister → Metrics → ℕ → SaveIo → ReadFile Text → Disk → Persister × Disk × Option Error
  save_files p m now io partial d =
      if not io.mkdir
      then (p, d, some mkdir_failed)
      else if not io.write
      then (p, record d { temporary = partial }, some write_failed)
      else if not io.rename
      then (
        p,
        record d { temporary = contents (marshal (next_persisted p m now)) },
        some rename_failed,
      )
      else (
        saved p m now,
        record { file = contents (marshal (next_persisted p m now)); temporary = not_exist },
        none,
      )

  pub save :
      Persister → Metrics → ℕ → SaveIo → ReadFile Text → Disk → Persister × Disk × Option Error
  unfolding save_files
  save p m now io partial d =
      if not p.enabled
      then (p, d, none)
      else if str_eq p.path ""
      then (p, d, some path_required)
      else save_files p m now io partial d

  -- One round of the goroutine of Start: a tick of the ticker, or the end of the context.
  pub record Round : Type 0 where
    pub metrics : Metrics
    pub now : ℕ
    pub io : SaveIo
    pub partial : ReadFile Text

  abbrev pub save_round : Persister → Disk → Round → Persister × Disk
  save_round p d r = let (p', d', e) = save p r.metrics r.now r.io r.partial d in (p', d')

  -- The ticks in order, each followed by a save whose error is only logged.
  pub rounds : Persister → Disk → List Round → Persister × Disk
  rounds p d [] = (p, d)
  rounds p d (r ∷ rs) = rounds (save_round p d r).0 (save_round p d r).1 rs

  -- Start with a context that ends after `ticks`: the last save is that of `ctx.Done`.
  pub start : Persister → Disk → List Round → Round → Persister × Disk
  start p d ticks last =
      if not p.enabled
      then (p, d)
      else if p.interval == 0
      then (p, d)
      else save_round (rounds p d ticks).0 (rounds p d ticks).1 last
