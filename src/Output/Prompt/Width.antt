-- ===== src/Output/Prompt/Width.antt =====
-- How wide the prompt of `Dump::Output` looks.
use libmandrews.Prelude.{
  ℕ, ◌+◌, ◌-◌, ◌*◌, ◌≤◌, ◌<◌, ◌≡◌, refl, ap, ◌∙◌, Bool, true, false, some, List, [], ◌∷◌, ◌++◌,
  arith, ltb, ◌==◌, if◌then◌else◌, append_assoc, append-nil, length, length-append, length-drop,
  length-replicate, drop, replicate, Returns,
}
use libmandrews.Output.Channel.{Channel, channel_color, codes, escape}
use libmandrews.Output.Prompt.{
  space, bold, colon, pad, filename_length, line_len, file_len, base_name, dots, filename,
  prompt_of, prompt, max_buffer_length,
}
use libmandrews.Output.Prompt.Escapes.{
  width_from, width, NoEscape, width-plain, NoEscape-replicate, NoEscape-drop, NoEscape-base_name,
  NoEscape-pad, length-pad, width-color, length-color, width-bold, width-colon, width-dots,
}

module _ (c : Channel) (tag file line : List ℕ) (indent : ℕ) where
  abbrev name : List ℕ
  name = base_name file file

  abbrev cut : List ℕ
  cut = drop (length name - file_len) name

  abbrev tail_of : List ℕ
  tail_of = pad file_len cut ++ (colon ++ (bold ++ pad line_len line))

  module _ (short : length line ≤ 4) (p : NoEscape file) (q : NoEscape line) where
    length-tail : length tail_of ≡ 33
    length-tail = omega (
      arith,
      length-append (pad file_len cut) (colon ++ (bold ++ pad line_len line)),
      length-pad file_len cut (omega (arith, length-drop (length name - file_len) name)),
      length-pad line_len line short,
    )

    width-tail : (ys : List ℕ) → width (tail_of ++ ys) ≡ 19 + width ys
    width-tail ys =
        ap width (append_assoc (pad file_len cut) (colon ++ (bold ++ pad line_len line)) ys)
        ∙ width-plain (pad file_len cut) (colon ++ (bold ++ (pad line_len line ++ ys))) (
            NoEscape-pad file_len cut
              (NoEscape-drop (length name - file_len) name (NoEscape-base_name file file p p)))
        ∙ omega (
          arith,
          length-pad file_len cut (omega (arith, length-drop (length name - file_len) name)),
          width-colon (bold ++ (pad line_len line ++ ys)),
          width-bold (pad line_len line ++ ys),
          width-plain (pad line_len line) ys (NoEscape-pad line_len line q),
          length-pad line_len line short,
        )

    -- Whether the name is cut, and what `Filename` returns then.
    abbrev named : Bool → List ℕ
    named long = if long then dots (bold ++ tail_of) else bold ++ tail_of

    filename-named : filename file line ≡ some (named (ltb file_len (length name)))
    unfolding filename
    filename-named =
        let fits : (length (bold ++ tail_of) == filename_length) ≡ true =
          ground (arith, length-tail) in
        rw fits refl

    length-named : (long : Bool) → length (named long) ≡ filename_length
    length-named true = omega (arith, length-tail)
    length-named false = omega (arith, length-tail)

    width-named :
        (long : Bool) (ys : List ℕ)
        → width (named long ++ ys) ≡ (if long then 26 else 19) + width ys
    width-named true ys = omega (arith, width-dots (tail_of ++ ys), width-tail ys)
    width-named false ys = omega (arith, width-bold (tail_of ++ ys), width-tail ys)

    abbrev ending : List ℕ
    ending = escape ∷ codes "[0m" ++ replicate (indent * 2) space

    width-ending : width ending ≡ indent * 2
    unfolding width_from
    width-ending = omega (
      arith,
      ap width (append-nil (replicate (indent * 2) space)),
      width-plain (replicate (indent * 2) space) [] (NoEscape-replicate (indent * 2)),
      length-replicate (indent * 2) space,
    )

    rest_of : List ℕ
    rest_of = channel_color c ++ (codes ")" ++ ending)

    length-rest : length rest_of ≡ 12 + indent * 2
    unfolding rest_of
    length-rest = omega (
      arith,
      length-append (channel_color c) (codes ")" ++ ending),
      length-color c,
      length-replicate (indent * 2) space,
    )

    width-rest : width rest_of ≡ 1 + indent * 2
    unfolding rest_of width_from
    width-rest = omega (arith, width-color c (codes ")" ++ ending), width-ending)

    length-prompt :
        (long : Bool)
        → length (prompt_of (channel_color c) tag (named long) indent)
          ≡ 61 + length tag + indent * 2
    unfolding rest_of
    length-prompt long = omega (
      arith,
      length-append (channel_color c) (tag ++ (codes " (" ++ (named long ++ rest_of))),
      length-append tag (codes " (" ++ (named long ++ rest_of)),
      length-append (named long) rest_of,
      length-color c,
      length-named long,
      length-rest,
    )

    width-prompt :
        (long : Bool)
        → NoEscape tag
        → width (prompt_of (channel_color c) tag (named long) indent)
          ≡ length tag + (if long then 29 else 22) + indent * 2
    unfolding rest_of width_from
    width-prompt long t =
        width-color c (tag ++ (codes " (" ++ (named long ++ rest_of)))
        ∙ width-plain tag (codes " (" ++ (named long ++ rest_of)) t
        ∙ by_case long
      where
        by_case :
            (b : Bool)
            → length tag + width (codes " (" ++ (named b ++ rest_of))
              ≡ length tag + (if b then 29 else 22) + indent * 2
        by_case true = omega (arith, width-named true rest_of, width-rest)
        by_case false = omega (arith, width-named false rest_of, width-rest)

-- On every channel, for a line number of up to four digits, no escapes in the names and room for
-- the channel's name and the indentation, the prompt is built, and real_len is the number of its
-- visible characters, except that 7 more are visible for a file name of more than 14 characters.
pub prompt-width :
    (c : Channel) (tag file line : List ℕ) (indent : ℕ)
    → length line ≤ 4
    → NoEscape file
    → NoEscape line
    → NoEscape tag
    → length tag + indent * 2 < 900
    → Returns (prompt (channel_color c) tag file line indent) (λ pre.
      width pre.text
      ≡ pre.real_len + (if ltb file_len (length (base_name file file)) then 7 else 0))
unfolding prompt
prompt-width c tag file line indent short p q t room =
    let long = ltb file_len (length (base_name file file)) in
    let len = length-prompt c tag file line indent short p q long in
    let fits : ltb
          (length
            (prompt_of (channel_color c) tag (named c tag file line indent short p q long) indent))
          max_buffer_length
        ≡ true =
      ground (arith, len) in
    rw (filename-named c tag file line indent short p q, fits) (by_long long)
  where
    by_long :
        (b : Bool)
        → width (prompt_of (channel_color c) tag (named c tag file line indent short p q b) indent)
          ≡ length
              (prompt_of (channel_color c) tag (named c tag file line indent short p q b) indent)
            - length (channel_color c) * 5
            - 4
            + (if b then 7 else 0)
    by_long true = omega (
      arith,
      width-prompt c tag file line indent short p q true t,
      length-prompt c tag file line indent short p q true,
      length-color c,
    )
    by_long false = omega (
      arith,
      width-prompt c tag file line indent short p q false t,
      length-prompt c tag file line indent short p q false,
      length-color c,
    )
