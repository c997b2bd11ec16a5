-- ===== src/Sftp/Startup.antt =====
-- crates/vfs-sftp/src/deploy.rs, `parse_startup_lines`, on what the agent prints (crates/agent-linux/src/main.rs).
pub mod Bound
use pfnc.Prelude.{
  ℕ, zero, suc, ◌+◌, ◌≤◌, ◌<◌, ◌^◌, ◌-◌, ◌≡◌, ◌∙◌, refl, ap, Bool, true, false, none, some, List,
  [], ◌∷◌, ◌++◌, Str, codes, length, is_empty, All, arith, ◌/◌, ◌%◌,
}
use pfnc.Prelude.Decimal.{to_digits, first_digit, parse_unsigned-to_digits}
use pfnc.Connect.Form.{to_digits-Unspaced}
use pfnc.Effect.{M, Result, ok, err, out_of_fuel, then_run, map_err, pure, ◌>>=◌}
use pfnc.Vfs.{IoError}
use pfnc.Connect.{is_whitespace, trim, trim_right, trim_right_onto}
use pfnc.Sftp.Hex.{AreBytes, hex_digit, to_hex, from_hex-to_hex}
use pfnc.Sftp.Deploy.{
  DeployedAgent, Startup, is_told, after_line, given, DeployError, read_output, nothing_told,
  strip_prefix, take_value, take_line, take_pid, take_port, take_cert, startup_loop, agent_of,
  parse_startup_lines,
}

-- `read_line` on what is already there, a list of lines.
abbrev pub next_line : M (List Str) IoError Str
next_line [] = (ok [], [])
next_line (line ∷ lines) = (ok line, lines)

-- The three lines of the agent.
abbrev pub pid_line : ℕ → Str
pid_line pid = codes "PFNC-AGENT-PID " ++ to_digits 10 pid ++ (10 ∷ [])

abbrev pub port_line : ℕ → Str
port_line port = codes "PFNC-AGENT-PORT " ++ to_digits 5 port ++ (10 ∷ [])

abbrev pub cert_line : List ℕ → Str
cert_line cert = codes "PFNC-AGENT-CERT-HEX " ++ to_hex cert ++ (10 ∷ [])

abbrev pub Unspaced : Str → Type 0
Unspaced = All (λ c. is_whitespace c ≡ false)

trim_right-line : (s : Str) → Unspaced s → trim_right (s ++ (10 ∷ [])) ≡ s
trim_right-line [] clear = refl
trim_right-line (c ∷ []) clear = rw clear.0 refl
trim_right-line (c ∷ d ∷ s) clear = ap (trim_right_onto c) (trim_right-line (d ∷ s) clear.1)

abbrev pub Ascii : Str → Type 0
Ascii = All (λ c. c < 128)

hex_digit-clear : (n : ℕ) → n < 16 → (hex_digit n < 128) × (is_whitespace (hex_digit n) ≡ false)
hex_digit-clear n h = (ground arith, ground arith)

to_hex-Ascii : (bytes : List ℕ) → AreBytes bytes → Ascii (to_hex bytes)
unfolding to_hex
to_hex-Ascii [] h = tt
to_hex-Ascii (b ∷ bytes) (byte, all) = (
  (hex_digit-clear (b / 16) (omega arith)).0,
  ((hex_digit-clear (b % 16) (omega arith)).0, to_hex-Ascii bytes all),
)

to_hex-Unspaced : (bytes : List ℕ) → AreBytes bytes → Unspaced (to_hex bytes)
unfolding to_hex
to_hex-Unspaced [] h = tt
to_hex-Unspaced (b ∷ bytes) (byte, all) = (
  (hex_digit-clear (b / 16) (omega arith)).1,
  ((hex_digit-clear (b % 16) (omega arith)).1, to_hex-Unspaced bytes all),
)

-- A line that is not one of the agent's.
abbrev pub IsBanner : Str → Type 0
IsBanner line =
    (is_empty line ≡ false)
    × (strip_prefix (codes "PFNC-AGENT-PID ") (trim line) ≡ none)
    × (strip_prefix (codes "PFNC-AGENT-PORT ") (trim line) ≡ none)
    × (strip_prefix (codes "PFNC-AGENT-CERT-HEX ") (trim line) ≡ none)

-- The certificate of an agent has at least one byte, and its numbers have their widths.
pub record IsAgent (agent : DeployedAgent) : Type 0 where
  pub pid_small : agent.pid < 2 ^ 32
  pub port_small : agent.port < 2 ^ 16
  pub bytes : AreBytes agent.cert_der
  pub some_cert : is_empty agent.cert_der ≡ false

abbrev pub startup_text : DeployedAgent → List Str
startup_text agent = pid_line agent.pid ∷ port_line agent.port ∷ cert_line agent.cert_der ∷ []

module _ (as_bytes : Str → List ℕ) where
  take_line-pid_line :
      (pid : ℕ) (told : Startup)
      → pid < 2 ^ 32
      → take_line as_bytes (trim (pid_line pid)) told ≡ ok (record told { pid = some pid })
  unfolding take_line take_value take_pid strip_prefix
  take_line-pid_line pid told small =
      let (c, cs, e, digit) = first_digit 9 pid (omega arith) in
      let clear : Unspaced (c ∷ cs) = rw e at (to_digits-Unspaced 10 pid) in
      let read =
        rw e at (parse_unsigned-to_digits (2 ^ 32 - 1) 9 pid (omega arith) (omega arith)) in
      rw (e, trim_right-line (c ∷ cs) clear, read) refl

  take_line-port_line :
      (port : ℕ) (told : Startup)
      → port < 2 ^ 16
      → take_line as_bytes (trim (port_line port)) told ≡ ok (record told { port = some port })
  unfolding take_line take_value take_port strip_prefix
  take_line-port_line port told small =
      let (c, cs, e, digit) = first_digit 4 port (omega arith) in
      let clear : Unspaced (c ∷ cs) = rw e at (to_digits-Unspaced 5 port) in
      let read = rw e at (parse_unsigned-to_digits 65535 4 port (omega arith) (omega arith)) in
      rw (e, trim_right-line (c ∷ cs) clear, read) refl

  take_line-cert_line :
      (b : ℕ) (bytes : List ℕ) (told : Startup)
      → ((s : Str) → Ascii s → as_bytes s ≡ s)
      → AreBytes (b ∷ bytes)
      → take_line as_bytes (trim (cert_line (b ∷ bytes))) told
        ≡ ok (record told { cert_der = some (b ∷ bytes) })
  unfolding take_line take_value take_cert to_hex strip_prefix
  take_line-cert_line b bytes told ascii h =
      rw
        (
          trim_right-line (to_hex (b ∷ bytes)) (to_hex-Unspaced (b ∷ bytes) h),
          ascii (to_hex (b ∷ bytes)) (to_hex-Ascii (b ∷ bytes) h),
          from_hex-to_hex (b ∷ bytes) h,
        )
        refl

  take_line-IsBanner :
      (line : Str) (told : Startup) → IsBanner line → take_line as_bytes (trim line) told ≡ ok told
  unfolding take_line take_value
  take_line-IsBanner line told (_, no_pid, no_port, no_cert) = rw (no_pid, no_port, no_cert) refl

  startup_loop-IsBanner :
      (all turns : ℕ) (banner rest : List Str)
      → all ≡ length banner + turns
      → All IsBanner banner
      → startup_loop as_bytes next_line all nothing_told (banner ++ rest)
        ≡ startup_loop as_bytes next_line turns nothing_told rest
  unfolding startup_loop after_line is_told
  startup_loop-IsBanner all turns [] rest e plain =
      ap (λ n. startup_loop as_bytes next_line n nothing_told rest) (omega arith)
  startup_loop-IsBanner zero turns (line ∷ banner) rest e plain =
      let impossible : ⊥ = omega arith in absurd impossible
  startup_loop-IsBanner (suc all) turns ([] ∷ banner) rest e plain = cc
  startup_loop-IsBanner (suc all) turns ((c ∷ line) ∷ banner) rest e plain =
      rw (take_line-IsBanner (c ∷ line) nothing_told plain.0)
        (startup_loop-IsBanner all turns banner rest (omega arith) plain.1)

  startup_loop-told :
      (turns pid port : ℕ) (cert : List ℕ) (rest : List Str)
      → startup_loop as_bytes next_line turns
          (record { pid = some pid; port = some port; cert_der = some cert })
          rest
        ≡ (ok (record { pid = some pid; port = some port; cert_der = some cert }), rest)
  unfolding startup_loop is_told
  startup_loop-told zero pid port cert rest = refl
  startup_loop-told (suc turns) pid port cert rest = refl

  three_lines :
      (turns pid port b : ℕ) (cert : List ℕ) (rest : List Str)
      → ((s : Str) → Ascii s → as_bytes s ≡ s)
      → pid < 2 ^ 32
      → port < 2 ^ 16
      → AreBytes (b ∷ cert)
      → startup_loop as_bytes next_line
          (suc (suc (suc turns)))
          nothing_told
          (pid_line pid ∷ port_line port ∷ cert_line (b ∷ cert) ∷ rest)
        ≡ (ok (record { pid = some pid; port = some port; cert_der = some (b ∷ cert) }), rest)
  unfolding startup_loop after_line is_told
  three_lines turns pid port b cert rest ascii small_pid small_port bytes =
      rw
        (
          take_line-pid_line pid nothing_told small_pid,
          take_line-port_line port (record nothing_told { pid = some pid }) small_port,
          take_line-cert_line b cert (record nothing_told { pid = some pid; port = some port })
              ascii bytes,
        )
        (startup_loop-told turns pid port (b ∷ cert) rest)

  startup_of :
      (pid port : ℕ) (cert : List ℕ) (banner rest : List Str)
      → ((s : Str) → Ascii s → as_bytes s ≡ s)
      → IsAgent (record { pid = pid; port = port; cert_der = cert })
      → All IsBanner banner
      → length banner ≤ 47
      → startup_loop as_bytes next_line 50 nothing_told
          (banner ++ (startup_text (record { pid = pid; port = port; cert_der = cert }) ++ rest))
        ≡ (ok (record { pid = some pid; port = some port; cert_der = some cert }), rest)
  startup_of pid port [] banner rest ascii fits plain few = cc
  startup_of pid port (b ∷ cert) banner rest ascii fits plain few =
      startup_loop-IsBanner 50 (suc (suc (suc (47 - length banner)))) banner
        (startup_text (record { pid = pid; port = port; cert_der = b ∷ cert }) ++ rest)
        (omega arith) plain
      ∙ three_lines (47 - length banner) pid port b cert rest ascii fits.pid_small fits.port_small
          fits.bytes

  -- Before the agent's three lines, the remote host may print up to 47 others, none of which begins with one of
  -- the three prefixes behind blanks. Then what the agent prints of itself is read back, and no line behind
  -- it is read. `as_bytes` need only keep what is ASCII.
  pub parse_startup_lines-startup_text :
      (agent : DeployedAgent) (banner rest : List Str)
      → ((s : Str) → Ascii s → as_bytes s ≡ s)
      → IsAgent agent
      → All IsBanner banner
      → length banner ≤ 47
      → parse_startup_lines as_bytes next_line (banner ++ (startup_text agent ++ rest))
        ≡ (ok agent, rest)
  unfolding parse_startup_lines agent_of
  parse_startup_lines-startup_text agent banner rest ascii fits plain few =
      rw (startup_of agent.pid agent.port agent.cert_der banner rest ascii fits plain few) refl
