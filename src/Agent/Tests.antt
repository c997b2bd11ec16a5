-- ===== src/Agent/Tests.antt =====
-- Calls to an agent on a disk with one file.
use pfnc.Prelude.{
  ℕ, ◌+◌, ◌≡◌, refl, some, List, [], ◌∷◌, ◌++◌, str_eq, codes, length, take, drop, min, arith,
  if◌then◌else◌,
}
use pfnc.Effect.{ok, err, pure, fail}
use pfnc.Vfs.{IoError, kind_not_found}
use pfnc.Agent.{refused, Utf8, Disk}
use pfnc.Agent.Protocol.{write_string, read_string}
use pfnc.Agent.Protocol.Framing.{write_string-read_string, with_incoming}
use pfnc.Agent.Server.{handle_stream}
use pfnc.Agent.Client.{opened, read_file, write_file}
use pfnc.Agent.Calls.{read_file-refused}

abbrev ascii : Utf8
ascii = record { as_bytes = λ s. s; from_utf8 = some }

abbrev no_file : IoError
no_file = record { error_kind = kind_not_found; message = codes "no such file" }

-- The state is the content of the one file `/f`, and how much of it has been read.
abbrev OneFile : Type 0
OneFile = List ℕ × ℕ

abbrev one_file : Disk OneFile
one_file = record {
  open_file = λ p d.
      if str_eq p (codes "/f")
      then pure
          (record {
            read = λ n (bytes, at).
                pure (take n (drop at bytes)) (bytes, at + min n (length (drop at bytes)));
          })
          d
      else fail no_file d;
  create_file = λ p d.
      pure
        (record {
          write = λ buf (bytes, at). pure (length buf) (bytes ++ buf, at);
          flush = λ d'. pure tt d';
        })
        ([], 0);
  set_permissions = λ p m d. pure tt d;
  describe = λ e. e.message;
}

reads_file :
    read_file
      (handle_stream ascii one_file (λ _. 1) 5 5)
      ascii
      (λ _. 1)
      5
      (codes "/f")
      (λ chunk got. pure tt (got ++ chunk))
      ([], (1 ∷ 2 ∷ 3 ∷ [], 0))
    ≡ (ok 3, (1 ∷ 2 ∷ 3 ∷ [], (1 ∷ 2 ∷ 3 ∷ [], 3)))
unfolding read_file handle_stream
reads_file = refl

writes_file :
    write_file
      (handle_stream ascii one_file (λ _. 1) 5 5)
      ascii
      5
      (codes "/f")
      (some 420)
      (λ n left. pure (take n left) (drop n left))
      (7 ∷ 8 ∷ [], (1 ∷ [], 0))
    ≡ (ok 2, ([], (7 ∷ 8 ∷ [], 0)))
unfolding write_file handle_stream
writes_file = refl

read_file-refused_example :
    read_file
      (handle_stream ascii one_file (λ _. 1) 5 5)
      ascii
      (λ _. 1)
      5
      (codes "/g")
      (λ chunk got. pure tt (got ++ chunk))
      ([], ([], 0))
    ≡ (err (refused (codes "no such file")), ([], ([], 0)))
read_file-refused_example =
    read_file-refused ascii one_file (λ _. 1) 5 5 (λ s. refl) (codes "/g")
      (λ chunk got. pure tt (got ++ chunk)) no_file [] ([], 0) ([], 0) refl (omega arith)
      (omega arith)

write_string-read_string_example :
    (bytes : List ℕ) × (write_string {D = ℕ} ascii (codes "ab") (opened, 0)
      ≡ (ok tt, (record opened { sent = bytes }, 0)))
    × ((rest : List ℕ)
        → read_string {D = ℕ} ascii (with_incoming opened (bytes ++ rest), 0)
          ≡ (ok (codes "ab"), (with_incoming opened rest, 0)))
write_string-read_string_example =
    write_string-read_string ascii (λ s. refl) (codes "ab") opened 0 (omega arith)
