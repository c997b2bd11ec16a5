-- ===== src/Sftp/Startup/Bound.antt =====
-- crates/vfs-sftp/src/deploy.rs, `parse_startup_lines`: how much of the channel is read.
use pfnc.Prelude.{
  ℕ, zero, suc, ◌+◌, ◌≤◌, ◌≡◌, refl, Bool, true, false, List, [], ◌∷◌, Str, length, arith,
}
use pfnc.Effect.{M, Result, ok, err, out_of_fuel, then_run, map_err, pure, ◌>>=◌}
use pfnc.Connect.{trim}
use pfnc.Sftp.Deploy.{
  Startup, is_told, after_line, given, DeployError, read_output, nothing_told, take_line,
  startup_loop, agent_of, parse_startup_lines,
}
use pfnc.Sftp.Startup.{next_line}

module _ (as_bytes : Str → List ℕ) where
  -- The end of the loop reads no line.
  end_reads_nothing :
      (o : Result DeployError Startup × List Str)
      → (then_run o (λ told. given as_bytes next_line (agent_of told))).1 ≡ o.1
  end_reads_nothing (ok told, lines) = refl
  end_reads_nothing (err e, lines) = refl
  end_reads_nothing (out_of_fuel, lines) = refl

  -- What is left of the lines, however a line was read.
  after_result-bound :
      (turns : ℕ) (again : Startup → M (List Str) DeployError Startup)
      (r : Result DeployError Startup) (lines : List Str)
      → ((told : Startup) → length lines ≤ length (again told lines).1 + turns)
      → length lines ≤ length (then_run (r, lines) again).1 + turns
  after_result-bound turns again (ok told) lines rest = rest told
  after_result-bound turns again (err e) lines rest = omega arith
  after_result-bound turns again out_of_fuel lines rest = omega arith

  read_on-bound :
      (turns : ℕ) (told : Startup) (lines : List Str)
      → ((told : Startup) (lines : List Str)
          → length lines ≤ length (startup_loop as_bytes next_line turns told lines).1 + turns)
      → length lines
        ≤ length
            (then_run
              (map_err read_output next_line lines)
              (after_line as_bytes next_line (startup_loop as_bytes next_line turns) told)).1
          + suc turns
  unfolding after_line
  read_on-bound turns told [] hyp = omega arith
  read_on-bound turns told ([] ∷ lines) hyp = omega arith
  read_on-bound turns told ((c ∷ line) ∷ lines) hyp =
      let left =
        after_result-bound turns (startup_loop as_bytes next_line turns)
          (take_line as_bytes (trim (c ∷ line)) told) lines (λ told'. hyp told' lines) in
      omega (arith, left)

  turn-bound :
      (turns : ℕ) (told : Startup) (lines : List Str)
      → ((told : Startup) (lines : List Str)
          → length lines ≤ length (startup_loop as_bytes next_line turns told lines).1 + turns)
      → (full : Bool)
      → length lines
        ≤ length
            ((elim full as (λ _. M (List Str) DeployError Startup) [
              | true ↦ pure told
              | false ↦
                  map_err read_output next_line
                  >>= after_line as_bytes next_line (startup_loop as_bytes next_line turns) told
            ])
              lines).1
          + suc turns
  turn-bound turns told lines hyp true = omega arith
  turn-bound turns told lines hyp false = read_on-bound turns told lines hyp

  startup_loop-bound :
      (turns : ℕ) (told : Startup) (lines : List Str)
      → length lines ≤ length (startup_loop as_bytes next_line turns told lines).1 + turns
  unfolding startup_loop
  startup_loop-bound zero told lines = omega arith
  startup_loop-bound (suc turns) told lines =
      turn-bound turns told lines (startup_loop-bound turns) (is_told told)

  -- Whatever the remote host prints, at most 50 of its lines are read.
  pub parse_startup_lines-bound :
      (lines : List Str)
      → length lines ≤ length (parse_startup_lines as_bytes next_line lines).1 + 50
  unfolding parse_startup_lines
  parse_startup_lines-bound lines =
      rw (end_reads_nothing (startup_loop as_bytes next_line 50 nothing_told lines))
        (startup_loop-bound 50 nothing_told lines)
