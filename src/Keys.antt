-- ===== src/Keys.antt =====
-- The `KeyCode` of the crate crossterm, as crates/app matches on it; `unnamed` is any other key.
use pfnc.Prelude.{ℕ}

pub data KeyCode : Type 0 where
  f_key char : ℕ → KeyCode
  esc enter tab backspace left right up down home end_key page_up page_down : KeyCode
  unnamed : ℕ → KeyCode
