-- ===== src/Sftp.antt =====
-- crates/vfs-sftp/src/lib.rs and deploy.rs: the command lines that are run on the remote host.
pub mod Hex
pub mod Session
pub mod HostKey
pub mod Auth
pub mod Connect
pub mod Fs
pub mod Deploy
pub mod Quic
pub mod Pipeline
mod Login
mod Startup
mod Once
mod Listing
mod Fake
mod Shell
mod Tests
use pfnc.Prelude.{ℕ, List, [], ◌∷◌, ◌++◌, Str, codes, ◌==◌, if◌then◌else◌}
use pfnc.Vfs.{VfsPath}

-- `str::replace` of one character.
unfoldable pub replace_char : ℕ → Str → Str → Str
replace_char c new [] = []
replace_char c new (x ∷ s) =
    let rest = replace_char c new s in if x == c then new ++ rest else x ∷ rest

-- `'` is 39, and `'\''` what stands for it.
unfoldable pub shell_quote : Str → Str
unfolding replace_char
shell_quote s = 39 ∷ (replace_char 39 (39 ∷ 92 ∷ 39 ∷ 39 ∷ []) s ++ (39 ∷ []))

unfoldable pub hash_command : VfsPath → Str
unfolding shell_quote
hash_command path = codes "xxhsum -H1 -- " ++ shell_quote path

unfoldable pub agent_command : Str → Str
unfolding shell_quote
agent_command remote_path = shell_quote remote_path ++ codes " --port 0"
