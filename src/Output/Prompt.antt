-- ===== src/Output/Prompt.antt =====
-- The prompt that `Dump::Output` builds, and `Dump::Filename`. `line_` is given as its decimal digits.
-- `none` is a failed assertion.
pub mod Escapes
pub mod Width
use libmandrews.Prelude.{
  ℕ, zero, suc, ◌+◌, ◌-◌, ◌*◌, Bool, true, false, Option, none, some, List, [], ◌∷◌, ◌++◌, ltb,
  ◌==◌, if◌then◌else◌, length, take, drop, replicate, ◌>>=◌, ◌>>◌, guard,
}
use libmandrews.Output.Channel.{codes, escape}

abbrev pub space : ℕ
space = b' '

abbrev pub bold : List ℕ
bold = escape ∷ codes "[1;36m"

abbrev pub colon : List ℕ
colon = escape ∷ codes "[0;35m:"

-- `%*s`: at least `n` characters.
abbrev pub pad : ℕ → List ℕ → List ℕ
pad n text = replicate (n - length text) space ++ text

abbrev pub filename_length : ℕ
filename_length = 40

abbrev pub line_len : ℕ
line_len = 4

-- `length - line_len - strlen(colon) - 2 * strlen(bold) - 1`
abbrev pub file_len : ℕ
file_len = filename_length + 1 - line_len - length colon - 2 * length bold - 1

-- What follows the last `/`: the pointer goes back from the end to it.
unfoldable pub base_name : List ℕ → List ℕ → List ℕ
base_name name [] = name
base_name name (c ∷ file) = if c == b'/' then base_name file file else base_name name file

-- `memset(buffer, '.', 3)`
abbrev pub dots : List ℕ → List ℕ
dots buffer = b'.' ∷ b'.' ∷ b'.' ∷ drop 3 buffer

unfoldable pub filename : List ℕ → List ℕ → Option (List ℕ)
unfolding base_name
filename file line = do
  let name = base_name file file
  let shown = drop (length name - file_len) name
  let buffer = bold ++ (pad file_len shown ++ (colon ++ (bold ++ pad line_len line)))
  guard (length buffer == filename_length)
  some (if ltb file_len (length name) then dots buffer else buffer)

-- The prompt: colour, channel, file and line in brackets, and the indentation.
abbrev pub prompt_of : List ℕ → List ℕ → List ℕ → ℕ → List ℕ
prompt_of color channel file indent =
    color
    ++ (channel
        ++ (codes " ("
            ++ (file
                ++ (color
                    ++ (codes ")" ++ (escape ∷ codes "[0m" ++ replicate (indent * 2) space))))))

abbrev pub max_buffer_length : ℕ
max_buffer_length = 1024

pub record Prefix : Type 0 where
  pub text : List ℕ
  pub real_len : ℕ

-- `real_len = written - color_.size() * 5 - 4`
unfoldable pub prompt : List ℕ → List ℕ → List ℕ → List ℕ → ℕ → Option Prefix
unfolding filename
prompt color channel file line indent = do
  name ← filename file line
  let text = prompt_of color channel name indent
  guard (ltb (length text) max_buffer_length)
  some (record { text = text; real_len = length text - length color * 5 - 4 })
