-- ===== src/Config/Fs.antt =====
-- src/config/mod.rs: the three files of the configuration directory, and their paths. `faults` says
-- of each later call of the file system whether it is refused; a refused call changes nothing.
use construct_tui.Prelude.{
  Bool, true, false, not, ◌&&◌, Option, none, some, List, [], ◌∷◌, if◌then◌else◌,
}
use construct_tui.Prelude.Bytes.{Bytes}
use construct_tui.Prelude.Utf8.{is_utf8}
use construct_tui.Prelude.Try.{Result, ok, err}
use construct_tui.Config.{ConfigError, no_config_dir, refused, not_utf8}

pub record Disk : Type 0 where
  pub has_config_dir : Bool
  pub session_enc : Option Bytes
  pub session_json : Option Bytes
  pub config_json : Option Bytes
  pub faults : List Bool

abbrev pub Fs : Type 0 → Type 0
Fs A = Disk → Result ConfigError A × Disk

-- The step after a call: an error ends the function.
abbrev pub and_then :
    {A B : Type 0} → (A → Fs B) → Result ConfigError A × Disk → Result ConfigError B × Disk
and_then f (ok a, d) = f a d
and_then f (err e, d) = (err e, d)

infixl 5 ◌>>=◌ ◌>>◌
abbrev pub ◌>>=◌ : {A B : Type 0} → Fs A → (A → Fs B) → Fs B
m >>= f = λ d. and_then f (m d)

abbrev pub ◌>>◌ : {A B : Type 0} → Fs A → Fs B → Fs B
m >> n = m >>= λ _. n

abbrev pub give : {A : Type 0} → A → Fs A
give a d = (ok a, d)

-- `r?` on a result that is no call of the file system
abbrev pub lift : {A : Type 0} → Result ConfigError A → Fs A
lift r d = (r, d)

abbrev with_fault : {A : Type 0} → List Bool → Result ConfigError A → (Disk → Disk) → Fs A
with_fault [] r f d = (r, f d)
with_fault (false ∷ fs) r f d = (r, f (record d { faults = fs }))
with_fault (true ∷ fs) r f d = (err refused, record d { faults = fs })

-- One call, with its result and its effect when it is not refused.
abbrev pub call : {A : Type 0} → Result ConfigError A → (Disk → Disk) → Fs A
call r f d = with_fault d.faults r f d

abbrev pub exists : Option Bytes → Bool
exists none = false
exists (some content) = true

-- The result of `read_to_string`
abbrev pub content_of : Option Bytes → Result ConfigError Bytes
content_of none = err refused
content_of (some content) = if is_utf8 content then ok content else err not_utf8

unfoldable pub config_dir : Fs (Unit {0})
config_dir d = if d.has_config_dir then call (ok tt) (λ e. e) d else (err no_config_dir, d)

unfoldable pub migrate : Fs (Unit {0})
migrate d =
    if exists d.session_json && not (exists d.session_enc)
    then call (ok tt) (λ e. record e { session_enc = e.session_json; session_json = none }) d
    else (ok tt, d)

unfoldable pub session_path : Fs (Unit {0})
unfolding config_dir migrate
session_path = config_dir >> migrate

unfoldable pub read_session_file : Fs Bytes
read_session_file d = call (content_of d.session_enc) (λ e. e) d

-- `std::fs::write`, and on Unix the permissions after it
unfoldable pub write_session_file : Bytes → Fs (Unit {0})
write_session_file content =
    call (ok tt) (λ e. record e { session_enc = some content }) >> call (ok tt) (λ e. e)
