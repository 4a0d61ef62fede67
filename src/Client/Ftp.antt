-- ===== src/Client/Ftp.antt =====
-- crates/xrds-net/src/client/client.rs, the FTP commands: `run_ftp_command` and one function for each
-- command. The FTP connection is a parameter, an interface over its own state.
pub mod Commands
use device_sdk.Base.{ℕ, List, [], ◌∷◌, Option, none, some, Bool, true, false, Text, codes, join}
use device_sdk.Base.Results.{Result, ok, err}
use device_sdk.Common.Enums.{
  FtpCommands, cwd, cdup, quit, retr, stor, appe, dele, rmd, mkd, pwd, list, noop,
}
use device_sdk.Common.Messages.{FtpPayload, FtpResponse}

-- `suppaftp::FtpStream`: each operation's result and the state it leaves.
pub record FtpStream (S : Type 0) : Type 0 where
  pub cwd : Text → S → Result (Unit {0}) × S
  pub cdup : S → Result (Unit {0}) × S
  pub quit : S → Result (Unit {0}) × S
  pub retr_as_buffer : Text → S → Result (List ℕ) × S
  pub put_file : Text → List ℕ → S → Result ℕ × S
  pub append_file : Text → List ℕ → S → Result ℕ × S
  pub rm : Text → S → Result (Unit {0}) × S
  pub rmdir : Text → S → Result (Unit {0}) × S
  pub mkdir : Text → S → Result (Unit {0}) × S
  pub pwd : S → Result Text × S
  pub list : Option Text → S → Result (List Text) × S
  pub noop : S → Result (Unit {0}) × S

abbrev newline : ℕ
newline = 10

-- The response to an operation whose value is dropped.
abbrev pub acknowledged : {A : Type 0} → Result A → FtpResponse
acknowledged (ok a) = record { payload = none; error = none }
acknowledged (err e) = record { payload = none; error = some e }

-- The response to an operation whose value is the payload.
abbrev pub carried : {A : Type 0} → (A → List ℕ) → Result A → FtpResponse
carried f (ok a) = record { payload = some (f a); error = none }
carried f (err e) = record { payload = none; error = some e }

module _ {S : Type 0} (ftp : FtpStream S) where
  -- `self.ftp_stream.unwrap()`: `none` is a panic. The state is that of the stream that the clones
  -- of the client share.
  abbrev pub on_stream :
      {A : Type 0}
      → (S → Result A × S)
      → (Result A → FtpResponse)
      → Option S
      → Option (FtpResponse × Option S)
  on_stream operation respond none = none
  on_stream operation respond (some s) = let (r, s') = operation s in some (respond r, some s')

  unfoldable pub run_ftp_cwd : FtpPayload → Option S → Option (FtpResponse × Option S)
  run_ftp_cwd p = on_stream (ftp.cwd p.payload_name) acknowledged

  unfoldable pub run_ftp_cdup : Option S → Option (FtpResponse × Option S)
  run_ftp_cdup = on_stream ftp.cdup acknowledged

  unfoldable pub run_ftp_quit : Option S → Option (FtpResponse × Option S)
  run_ftp_quit = on_stream ftp.quit acknowledged

  unfoldable pub run_ftp_retr : FtpPayload → Option S → Option (FtpResponse × Option S)
  run_ftp_retr p = on_stream (ftp.retr_as_buffer p.payload_name) (carried (λ bytes. bytes))

  unfoldable pub run_ftp_stor : FtpPayload → Option S → Option (FtpResponse × Option S)
  run_ftp_stor p stream = elim p.payload [
    | none ↦ some (
      record { payload = none; error = some (codes "The payload is required for STOR command.") },
      stream,
    )
    | some bytes ↦ on_stream (ftp.put_file p.payload_name bytes) acknowledged stream
  ]

  -- `ftp_payload.payload.unwrap()`: without a payload, a panic.
  unfoldable pub run_ftp_appe : FtpPayload → Option S → Option (FtpResponse × Option S)
  run_ftp_appe p stream = elim p.payload [
    | none ↦ none
    | some bytes ↦ on_stream (ftp.append_file p.payload_name bytes) acknowledged stream
  ]

  unfoldable pub run_ftp_dele : FtpPayload → Option S → Option (FtpResponse × Option S)
  run_ftp_dele p = on_stream (ftp.rm p.payload_name) acknowledged

  unfoldable pub run_ftp_rmd : FtpPayload → Option S → Option (FtpResponse × Option S)
  run_ftp_rmd p = on_stream (ftp.rmdir p.payload_name) acknowledged

  unfoldable pub run_ftp_mkd : FtpPayload → Option S → Option (FtpResponse × Option S)
  run_ftp_mkd p = on_stream (ftp.mkdir p.payload_name) acknowledged

  unfoldable pub run_ftp_pwd : Option S → Option (FtpResponse × Option S)
  run_ftp_pwd = on_stream ftp.pwd (carried (λ path. path))

  -- An empty name lists the working directory.
  abbrev listed : Text → Option Text
  listed [] = none
  listed (c ∷ cs) = some (c ∷ cs)

  unfoldable pub run_ftp_list : FtpPayload → Option S → Option (FtpResponse × Option S)
  run_ftp_list p = on_stream (ftp.list (listed p.payload_name)) (carried (join newline))

  unfoldable pub run_ftp_noop : Option S → Option (FtpResponse × Option S)
  run_ftp_noop = on_stream ftp.noop acknowledged

  unfoldable pub run_ftp_command : FtpPayload → Option S → Option (FtpResponse × Option S)
  unfolding run_ftp_cwd run_ftp_cdup run_ftp_quit run_ftp_retr run_ftp_stor run_ftp_appe
      run_ftp_dele run_ftp_rmd run_ftp_mkd run_ftp_pwd run_ftp_list run_ftp_noop
  run_ftp_command p = elim p.command [
    | cwd ↦ run_ftp_cwd p
    | cdup ↦ run_ftp_cdup
    | quit ↦ run_ftp_quit
    | retr ↦ run_ftp_retr p
    | stor ↦ run_ftp_stor p
    | appe ↦ run_ftp_appe p
    | dele ↦ run_ftp_dele p
    | rmd ↦ run_ftp_rmd p
    | mkd ↦ run_ftp_mkd p
    | pwd ↦ run_ftp_pwd
    | list ↦ run_ftp_list p
    | noop ↦ run_ftp_noop
  ]
