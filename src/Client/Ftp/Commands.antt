-- ===== src/Client/Ftp/Commands.antt =====
-- The FTP commands: what they answer, when they panic, and that what is stored is retrieved.
use device_sdk.Base.{
  ℕ, List, Option, none, some, ◌≡◌, ◌≢◌, ◌⊎◌, ◌↔◌, inl, inr, refl, subst, ap, Text,
}
use device_sdk.Base.Results.{Result, ok, err}
use device_sdk.Common.Enums.{
  FtpCommands, cwd, cdup, quit, retr, stor, appe, dele, rmd, mkd, pwd, list, noop,
}
use device_sdk.Common.Messages.{FtpPayload, FtpResponse}
use device_sdk.Client.Ftp.{
  FtpStream, acknowledged, carried, on_stream, run_ftp_cwd, run_ftp_cdup, run_ftp_quit,
  run_ftp_retr, run_ftp_stor, run_ftp_appe, run_ftp_dele, run_ftp_rmd, run_ftp_mkd, run_ftp_pwd,
  run_ftp_list, run_ftp_noop, run_ftp_command,
}

-- The response is a payload, an error or nothing, never a payload with an error.
abbrev pub NotBoth : FtpResponse → Type 0
NotBoth r = (r.payload ≡ none) ⊎ (r.error ≡ none)

acknowledged-NotBoth : {A : Type 0} (r : Result A) → NotBoth (acknowledged r)
acknowledged-NotBoth (ok a) = inl refl
acknowledged-NotBoth (err e) = inl refl

carried-NotBoth : {A : Type 0} (f : A → List ℕ) (r : Result A) → NotBoth (carried f r)
carried-NotBoth f (ok a) = inr refl
carried-NotBoth f (err e) = inl refl

abbrev pub with_data : FtpCommands → Text → Option (List ℕ) → FtpPayload
with_data c name bytes = record { command = c; payload_name = name; payload = bytes }

-- What a command without a connection, and an append without data, do.
abbrev pub Panics : {S : Type 0} → FtpPayload → Option S → Type 0
Panics p stream =
    ((p.command ≡ appe) × (p.payload ≡ none))
    ⊎ ((stream ≡ none) × ((p.command ≢ stor) ⊎ (p.payload ≢ none)))

some_ne_none : {e : Text} → some e ≢ none
some_ne_none = λ e. cc

some-injective : {A : Type 0} {a b : A} → some a ≡ some b → a ≡ b
some-injective h = cc

-- A response without an error is that of a result without one.
acknowledged-ok :
    {A S : Type 0} (r : Result A) (s : S) (after : Option S)
    → ◌≡◌ {A = Option (FtpResponse × Option S)}
        (some (acknowledged r, some s))
        (some (record { payload = none; error = none }, after))
    → (a : A) × (r ≡ ok a) × (after ≡ some s)
acknowledged-ok (ok a) s after h = (a, refl, cc)
acknowledged-ok (err e) s after h = absurd (some_ne_none (ap (λ q. q.0.error) (some-injective h)))

module _ {S : Type 0} (ftp : FtpStream S) where
  on_stream-NotBoth :
      {A : Type 0} (operation : S → Result A × S) (respond : Result A → FtpResponse)
      (stream : Option S)
      → ((r : Result A) → NotBoth (respond r))
      → {r : FtpResponse} {after : Option S}
      → on_stream ftp operation respond stream ≡ some (r, after)
      → NotBoth r
  on_stream-NotBoth operation respond none k h = cc
  on_stream-NotBoth operation respond (some s) k {r} h =
      subst NotBoth (ap (λ q. q.0) (some-injective h)) (k (operation s).0)

  on_stream-none :
      {A : Type 0} (operation : S → Result A × S) (respond : Result A → FtpResponse)
      (stream : Option S)
      → (on_stream ftp operation respond stream ≡ none) ↔ (stream ≡ none)
  on_stream-none operation respond none = ((λ e. refl), (λ e. refl))
  on_stream-none operation respond (some s) = ((λ e. cc), (λ e. cc))

  -- A command that is neither STOR nor APPE panics where there is no connection.
  plain :
      (p : FtpPayload) (stream : Option S) (answer : Option (FtpResponse × Option S))
      → (answer ≡ none) ↔ (stream ≡ none)
      → p.command ≢ appe
      → p.command ≢ stor
      → (answer ≡ none) ↔ Panics p stream
  plain p stream answer (f, g) a n =
      ((λ h. inr (f h, inl n)), (λ h. elim h [ inl (e, _) ↦ absurd (a e) | inr (e, _) ↦ g e ]))

  command-none :
      (c : FtpCommands) (name : Text) (bytes : Option (List ℕ)) (stream : Option S)
      → (run_ftp_command ftp (with_data c name bytes) stream ≡ none)
        ↔ Panics (with_data c name bytes) stream
  unfolding run_ftp_command run_ftp_cwd run_ftp_cdup run_ftp_quit run_ftp_retr run_ftp_dele
      run_ftp_rmd run_ftp_mkd run_ftp_pwd run_ftp_list run_ftp_noop run_ftp_stor run_ftp_appe
  command-none cwd name bytes stream =
      plain (with_data cwd name bytes) stream _ (on_stream-none (ftp.cwd name) acknowledged stream)
        (λ e. cc) (λ e. cc)
  command-none cdup name bytes stream =
      plain (with_data cdup name bytes) stream _ (on_stream-none ftp.cdup acknowledged stream)
        (λ e. cc) (λ e. cc)
  command-none quit name bytes stream =
      plain (with_data quit name bytes) stream _ (on_stream-none ftp.quit acknowledged stream)
        (λ e. cc) (λ e. cc)
  command-none retr name bytes stream =
      plain (with_data retr name bytes) stream _
        (on_stream-none (ftp.retr_as_buffer name) (carried (λ x. x)) stream) (λ e. cc) (λ e. cc)
  command-none stor name none stream = (
    (λ e. cc),
    (λ h. elim h [
      | inl (e, _) ↦ cc
      | inr (_, n) ↦ elim n [ inl m ↦ absurd (m refl) | inr m ↦ absurd (m refl) ]
    ]),
  )
  command-none stor name (some x) stream =
      let (f, g) = on_stream-none (ftp.put_file name x) acknowledged stream in
      ((λ h. inr (f h, inr (λ e. cc))), (λ h. elim h [ inl (e, _) ↦ cc | inr (e, _) ↦ g e ]))
  command-none appe name none stream = ((λ h. inl (refl, refl)), (λ h. refl))
  command-none appe name (some x) stream =
      let (f, g) = on_stream-none (ftp.append_file name x) acknowledged stream in
      ((λ h. inr (f h, inr (λ e. cc))), (λ h. elim h [ inl (_, e) ↦ cc | inr (e, _) ↦ g e ]))
  command-none dele name bytes stream =
      plain (with_data dele name bytes) stream _ (on_stream-none (ftp.rm name) acknowledged stream)
        (λ e. cc) (λ e. cc)
  command-none rmd name bytes stream =
      plain (with_data rmd name bytes) stream _
        (on_stream-none (ftp.rmdir name) acknowledged stream) (λ e. cc) (λ e. cc)
  command-none mkd name bytes stream =
      plain (with_data mkd name bytes) stream _
        (on_stream-none (ftp.mkdir name) acknowledged stream) (λ e. cc) (λ e. cc)
  command-none pwd name bytes stream =
      plain (with_data pwd name bytes) stream _ (on_stream-none ftp.pwd (carried (λ x. x)) stream)
        (λ e. cc) (λ e. cc)
  command-none list name bytes stream =
      plain (with_data list name bytes) stream _ (on_stream-none (ftp.list _) (carried _) stream)
        (λ e. cc) (λ e. cc)
  command-none noop name bytes stream =
      plain (with_data noop name bytes) stream _ (on_stream-none ftp.noop acknowledged stream)
        (λ e. cc) (λ e. cc)

  -- An FTP command panics exactly where it is an append without data, or where there is no
  -- connection and it is not a store without data; otherwise it is answered with a response.
  pub run_ftp_command-Panics :
      (p : FtpPayload) (stream : Option S) → (run_ftp_command ftp p stream ≡ none) ↔ Panics p stream
  run_ftp_command-Panics p stream = command-none p.command p.payload_name p.payload stream

  command-NotBoth :
      (c : FtpCommands) (name : Text) (bytes : Option (List ℕ)) (stream after : Option S)
      (r : FtpResponse)
      → run_ftp_command ftp (with_data c name bytes) stream ≡ some (r, after)
      → NotBoth r
  unfolding run_ftp_command run_ftp_cwd run_ftp_cdup run_ftp_quit run_ftp_retr run_ftp_dele
      run_ftp_rmd run_ftp_mkd run_ftp_pwd run_ftp_list run_ftp_noop run_ftp_stor run_ftp_appe
  command-NotBoth cwd name bytes stream after r h =
      on_stream-NotBoth _ _ stream acknowledged-NotBoth h
  command-NotBoth cdup name bytes stream after r h =
      on_stream-NotBoth _ _ stream acknowledged-NotBoth h
  command-NotBoth quit name bytes stream after r h =
      on_stream-NotBoth _ _ stream acknowledged-NotBoth h
  command-NotBoth retr name bytes stream after r h =
      on_stream-NotBoth _ _ stream (carried-NotBoth _) h
  command-NotBoth stor name none stream after r h =
      subst NotBoth (ap (λ q. q.0) (some-injective h)) (inl refl)
  command-NotBoth stor name (some x) stream after r h =
      on_stream-NotBoth _ _ stream acknowledged-NotBoth h
  command-NotBoth appe name none stream after r h = cc
  command-NotBoth appe name (some x) stream after r h =
      on_stream-NotBoth _ _ stream acknowledged-NotBoth h
  command-NotBoth dele name bytes stream after r h =
      on_stream-NotBoth _ _ stream acknowledged-NotBoth h
  command-NotBoth rmd name bytes stream after r h =
      on_stream-NotBoth _ _ stream acknowledged-NotBoth h
  command-NotBoth mkd name bytes stream after r h =
      on_stream-NotBoth _ _ stream acknowledged-NotBoth h
  command-NotBoth pwd name bytes stream after r h =
      on_stream-NotBoth _ _ stream (carried-NotBoth _) h
  command-NotBoth list name bytes stream after r h =
      on_stream-NotBoth _ _ stream (carried-NotBoth _) h
  command-NotBoth noop name bytes stream after r h =
      on_stream-NotBoth _ _ stream acknowledged-NotBoth h

  -- The response of an FTP command never carries a payload and an error at once.
  pub run_ftp_command-NotBoth :
      (p : FtpPayload) (stream after : Option S) (r : FtpResponse)
      → run_ftp_command ftp p stream ≡ some (r, after)
      → NotBoth r
  run_ftp_command-NotBoth p stream after r h =
      command-NotBoth p.command p.payload_name p.payload stream after r h

  -- Where the server keeps what it has accepted (`put_file` that succeeds is followed by a
  -- `retr_as_buffer` with the same bytes), a file that STOR has stored without an error is the payload
  -- that RETR of the same name then answers, without an error.
  pub run_ftp_retr-run_ftp_stor :
      ((name : Text) (bytes : List ℕ) (n : ℕ) (s s' : S)
        → ftp.put_file name bytes s ≡ (ok n, s')
        → ftp.retr_as_buffer name s' ≡ (ok bytes, s'))
      → (name : Text) (bytes : List ℕ) (unused : Option (List ℕ)) (stream after : Option S)
      → run_ftp_command ftp (with_data stor name (some bytes)) stream
        ≡ some (record { payload = none; error = none }, after)
      → run_ftp_command ftp (with_data retr name unused) after
        ≡ some (record { payload = some bytes; error = none }, after)
  unfolding run_ftp_command run_ftp_retr run_ftp_stor
  run_ftp_retr-run_ftp_stor law name bytes unused none after h = cc
  run_ftp_retr-run_ftp_stor law name bytes unused (some s) after h =
      let (n, e, a) =
        acknowledged-ok (ftp.put_file name bytes s).0 (ftp.put_file name bytes s).1 after h in
      let found =
        law name bytes n s (ftp.put_file name bytes s).1
          (ap (λ r. (r, (ftp.put_file name bytes s).1)) e) in
      rw (a, found) refl
