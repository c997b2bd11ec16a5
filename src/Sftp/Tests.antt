-- ===== src/Sftp/Tests.antt =====
-- crates/vfs-sftp/src/lib.rs: names that a shell must not act on.
use pfnc.Prelude.{
  ℕ, ◌+◌, ◌≤◌, ◌++◌, length, All, List, arith, ◌≡◌, refl, none, some, [], ◌∷◌, Str, codes,
}
use pfnc.Sftp.{replace_char, shell_quote, hash_command}
use pfnc.Sftp.Hex.{to_hex, from_hex, decoded, refused, odd_length, invalid_digit}
use pfnc.Effect.{ok}
use pfnc.Fixtures.{test_paths}
use pfnc.Sftp.HostKey.{host_key_id}
use pfnc.Sftp.Connect.{new_caches}
use pfnc.Sftp.Deploy.{DeployedAgent, strip_prefix, parse_startup_lines}
use pfnc.Sftp.Startup.{IsBanner, next_line, startup_text, parse_startup_lines-startup_text}
use pfnc.Sftp.Startup.Bound.{parse_startup_lines-bound}
use pfnc.Sftp.Quic.{quic_agent}
use pfnc.Sftp.Once.{quic_agent-quic_agent}
use pfnc.Sftp.Session.{check_match}
use pfnc.Sftp.Fake.{Client, changed_host, fake_host, fake_fs}
use pfnc.Sftp.Shell.{words_from, shell_words, shell_words-hash_command}

-- `it's; rm $HOME`
abbrev hostile_name : Str
hostile_name = codes "it's; rm $HOME"

test_shell_quote : shell_quote hostile_name ≡ codes "'it'\\''s; rm $HOME'"
unfolding shell_quote replace_char
test_shell_quote = refl

test_unquoted : shell_words hostile_name ≡ none
unfolding words_from
test_unquoted = refl

test_two_words : shell_words (codes "xxhsum  a\\ b") ≡ some (codes "xxhsum" ∷ codes "a b" ∷ [])
unfolding words_from
test_two_words = refl

shell_words-hash_command_example :
    shell_words (hash_command hostile_name)
    ≡ some (codes "xxhsum" ∷ codes "-H1" ∷ codes "--" ∷ hostile_name ∷ [])
shell_words-hash_command_example = shell_words-hash_command hostile_name

-- Each digit is read in either case; a sign is read as one, and a character that is cut panics.
test_from_hex : from_hex (codes "00aBff") ≡ some (decoded (0 ∷ 171 ∷ 255 ∷ []))
unfolding from_hex
test_from_hex = refl

test_odd : from_hex (codes "abc") ≡ some (refused (odd_length 3))
unfolding from_hex
test_odd = refl

test_not_hex : from_hex (codes "zz") ≡ some (refused invalid_digit)
unfolding from_hex
test_not_hex = refl

test_sign : from_hex (codes "+f") ≡ some (decoded (15 ∷ []))
unfolding from_hex
test_sign = refl

-- `€0`, four bytes.
test_cut : from_hex (226 ∷ 130 ∷ 172 ∷ 48 ∷ []) ≡ none
unfolding from_hex
test_cut = refl

abbrev three_bytes : List ℕ
three_bytes = 0 ∷ 171 ∷ 255 ∷ []

test_to_hex : from_hex (to_hex three_bytes) ≡ some (decoded three_bytes)
unfolding from_hex to_hex
test_to_hex = refl

abbrev NothingSent : Client → Type 0
NothingSent w = w.0 ≡ []

test_host_key_id : host_key_id (codes "h") 22 ≡ codes "h"
unfolding host_key_id
test_host_key_id = refl

-- What the host presents.
abbrev TheirKey : List ℕ → Type 0
TheirKey key = key ≡ 1 ∷ 2 ∷ []

test_recorded : (changed_host.check (codes "h") (9 ∷ []) ([], new_caches)).0 ≡ check_match
test_recorded = refl

abbrev an_agent : DeployedAgent
an_agent = record { pid = 123; port = 4433; cert_der = three_bytes }

abbrev welcome : List Str
welcome = codes "Welcome to Ubuntu 22.04.3 LTS\n" ∷ codes "\n" ∷ []

welcome-IsBanner : All IsBanner welcome
unfolding strip_prefix
welcome-IsBanner = ((refl, refl, refl, refl), ((refl, refl, refl, refl), tt))

parse_startup_lines-startup_text_example :
    parse_startup_lines
      (λ s. s)
      next_line
      (welcome ++ (startup_text an_agent ++ (codes "later" ∷ [])))
    ≡ (ok an_agent, codes "later" ∷ [])
parse_startup_lines-startup_text_example =
    parse_startup_lines-startup_text (λ s. s) an_agent welcome (codes "later" ∷ []) (λ _ _. refl)
      (record {
        pid_small = omega arith;
        port_small = omega arith;
        bytes = (omega arith, (omega arith, (omega arith, tt)));
        some_cert = refl;
      })
      welcome-IsBanner (omega arith)

parse_startup_lines-bound_example :
    length welcome ≤ length (parse_startup_lines (λ s. s) next_line welcome).1 + 50
parse_startup_lines-bound_example = parse_startup_lines-bound (λ s. s) welcome

-- The channel of this host ends before the three lines, so that there is no agent.
not_started :
    (quic_agent fake_host test_paths (λ s. s) 9 (λ _ _ _ w. (some 5, w)) fake_fs ([], new_caches)).0
    ≡ ok none
unfolding quic_agent
not_started = refl

quic_agent-quic_agent_example :
    quic_agent fake_host test_paths
      (λ s. s)
      9
      (λ _ _ _ w. (some 5, w))
      fake_fs
      (quic_agent fake_host test_paths
        (λ s. s)
        9
        (λ _ _ _ w. (some 5, w))
        fake_fs
        ([], new_caches)).1
    ≡ quic_agent fake_host test_paths (λ s. s) 9 (λ _ _ _ w. (some 5, w)) fake_fs ([], new_caches)
quic_agent-quic_agent_example =
    quic_agent-quic_agent fake_host test_paths (λ s. s) 9 (λ _ _ _ w. (some 5, w)) fake_fs
      ([], new_caches) none (λ _ _. refl) not_started
