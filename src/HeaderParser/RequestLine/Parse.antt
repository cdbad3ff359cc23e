-- ===== src/HeaderParser/RequestLine/Parse.antt =====
-- What `request_line` reads from the three forms of a request's first line.
use proxi.Base.{
  ℕ, ◌+◌, ◌≤◌, ◌≢◌, ◌≡◌, refl, sym, ◌∙◌, ap, [], ◌∷◌, ◌++◌, ok, arith, length, drop, take,
  length-take, length-drop, take-append-drop, length-append, append_assoc, ne→==,
}
use proxi.HeaderParser.RequestLine.{path_begin, parse}
use proxi.Text.{Bytes, Lacks, Fits, add64, sub64, find, substr}
use proxi.Text.Fields.{
  fields, sizes, behind_first, second_begin, first_space, first_field, second_space, third_field,
}
use proxi.Text.Laws.{find_at, substr_at, substr_rest, byte_at_lem, Lacks-append}

-- The constructor, from what its calls return.
parse_parts :
    (line : Bytes) (end end' path : ℕ) (type url http : Bytes)
    → find line b' ' 0 ≡ end
    → substr line 0 (sub64 end 0) ≡ ok type
    → find line b' ' (add64 end 1) ≡ end'
    → path_begin line (add64 end 1) ≡ ok path
    → substr line path (sub64 end' path) ≡ ok url
    → substr line (add64 end' 1) (sub64 (length line) (add64 end' 1)) ≡ ok http
    → parse line ≡ ok (record { type = type; url = url; http = http })
unfolding parse
parse_parts line end end' path type url http f t g p u h = rw (parse, f, t, g, p, u, h) refl

Lacks-drop_two :
    (rest protocol : Bytes)
    → Lacks b'/' (drop 2 rest)
    → Lacks b'/' protocol
    → Lacks b'/' (drop 2 (rest ++ (b' ' ∷ protocol)))
Lacks-drop_two [] [] h g = tt
Lacks-drop_two [] (a ∷ p) h g = g.1
Lacks-drop_two (a ∷ []) p h g = g
Lacks-drop_two (a ∷ b ∷ r) p h g = Lacks-append b'/' r (b' ' ∷ p) h (omega arith, g)

regroup :
    (scheme rest protocol version t d : Bytes)
    → t ++ d ≡ rest ++ (b' ' ∷ protocol)
    → (scheme ++ b':' ∷ rest) ++ (b' ' ∷ (protocol ++ b'/' ∷ version))
      ≡ (scheme ++ (b':' ∷ t)) ++ (d ++ b'/' ∷ version)
regroup scheme rest protocol version t d e =
    append_assoc scheme (b':' ∷ rest) (b' ' ∷ (protocol ++ b'/' ∷ version))
    ∙ ap (λ (y : Bytes). scheme ++ (b':' ∷ y))
        (sym (append_assoc rest (b' ' ∷ protocol) (b'/' ∷ version))
          ∙ ap (λ (y : Bytes). y ++ b'/' ∷ version) (sym e)
          ∙ append_assoc t d (b'/' ∷ version))
    ∙ sym (append_assoc scheme (b':' ∷ t) (d ++ b'/' ∷ version))

-- What does not depend on where the path begins: the line has a type, a target and a version.
module _ (type target http : Bytes) (no_space : Lacks b' ' type) (one_target : Lacks b' ' target)
    (fits : Fits (fields type target http)) where
  abbrev line : Bytes
  line = fields type target http

  parse_target :
      (path : ℕ) (url : Bytes)
      → path_begin line (length type + 1) ≡ ok path
      → substr line path (sub64 (length type + 1 + length target) path) ≡ ok url
      → parse line ≡ ok (record { type = type; url = url; http = http })
  parse_target path url p u =
      let start = second_begin type target http fits in
      parse_parts line (length type) (length type + 1 + length target) path type url http
        (first_space type target http fits no_space) (first_field type target http fits)
        (rw start (second_space type target http fits one_target)) (rw start p) u
        (third_field type target http fits)

  -- In a line that fits in memory, with no space in its type and its target, a target that
  -- begins with a slash is the url.
  pub parse_origin :
      (t : Bytes)
      → target ≡ b'/' ∷ t
      → parse line ≡ ok (record { type = type; url = target; http = http })
  unfolding path_begin
  parse_origin t e =
      let one = length-append type (b' ' ∷ []) in
      let first =
        byte_at_lem line (type ++ b' ' ∷ []) (t ++ (b' ' ∷ http)) b'/' (length type + 1)
          ((behind_first type target http fits)
            ∙ ap (λ (x : Bytes). (type ++ b' ' ∷ []) ++ (x ++ (b' ' ∷ http))) e)
          (omega (arith, one)) in
      parse_target (length type + 1) target (rw first refl) (
        substr_at line (type ++ b' ' ∷ []) target (b' ' ∷ http) (length type + 1) _
          (behind_first type target http fits) (omega (arith, one))
          (omega (arith, (sizes type target http fits))))

  -- Where the path begins in a target that does not begin with a slash.
  path_begin_behind :
      (x : ℕ) (s scheme rest : Bytes) (from path : ℕ)
      → target ≡ x ∷ s
      → x ≢ b'/'
      → target ≡ scheme ++ b':' ∷ rest
      → Lacks b':' scheme
      → from ≡ length type + 1 + length scheme + 3
      → find line b'/' from ≡ path
      → path_begin line (length type + 1) ≡ ok path
  unfolding path_begin
  path_begin_behind x s scheme rest from path e ne c lacks f g =
      let one = length-append type (b' ' ∷ []) in
      let first =
        byte_at_lem line (type ++ b' ' ∷ []) (s ++ (b' ' ∷ http)) x (length type + 1)
          ((behind_first type target http fits)
            ∙ ap (λ (y : Bytes). (type ++ b' ' ∷ []) ++ (y ++ (b' ' ∷ http))) e)
          (omega (arith, one)) in
      let colon =
        find_at line (type ++ b' ' ∷ []) scheme (rest ++ (b' ' ∷ http)) b':' (length type + 1)
          ((behind_first type target http fits)
            ∙ ap (λ (y : Bytes). (type ++ b' ' ∷ []) ++ (y ++ (b' ' ∷ http))) c
            ∙ ap (λ (y : Bytes). (type ++ b' ' ∷ []) ++ y)
                (append_assoc scheme (b':' ∷ rest) (b' ' ∷ http)))
          (omega (arith, one)) lacks in
      let skip : add64 (length (type ++ b' ' ∷ []) + length scheme) 3 ≡ from = omega (
        arith,
        one,
        (sizes type target http fits),
        ap length c,
        length-append scheme (b':' ∷ rest),
      ) in
      rw (first, ne→== x b'/' ne, colon, skip, g) refl

  find_slash :
      (front a r : Bytes) (from : ℕ)
      → line ≡ front ++ (a ++ b'/' ∷ r)
      → from ≡ length front
      → Lacks b'/' a
      → find line b'/' from ≡ length front + length a
  find_slash front a r from e i h = find_at line front a r b'/' from e i h

  -- In a line that fits in memory, with no space in its type and its target: of a target
  -- "scheme://host/path", whose scheme has no colon and does not begin with a slash and whose
  -- host has no slash, the url is the path, from its slash on.
  pub parse_absolute :
      (x : ℕ) (s host path : Bytes)
      → target ≡ (x ∷ s) ++ (b':' ∷ b'/' ∷ b'/' ∷ (host ++ b'/' ∷ path))
      → x ≢ b'/'
      → Lacks b':' (x ∷ s)
      → Lacks b'/' host
      → parse line ≡ ok (record { type = type; url = b'/' ∷ path; http = http })
  parse_absolute x s host path e ne colon slash =
      let scheme = x ∷ s in
      let front = (type ++ b' ' ∷ []) ++ (scheme ++ (b':' ∷ b'/' ∷ b'/' ∷ [])) in
      let one = length-append type (b' ' ∷ []) in
      let two = length-append (type ++ b' ' ∷ []) (scheme ++ (b':' ∷ b'/' ∷ b'/' ∷ [])) in
      let three = length-append scheme (b':' ∷ b'/' ∷ b'/' ∷ []) in
      let all = ap length e ∙ length-append scheme (b':' ∷ b'/' ∷ b'/' ∷ (host ++ b'/' ∷ path)) in
      let tail = length-append host (b'/' ∷ path) in
      let from = length type + 1 + length scheme + 3 in
      let split : line ≡ front ++ (host ++ b'/' ∷ (path ++ b' ' ∷ http)) =
        (behind_first type target http fits)
        ∙ ap (λ (y : Bytes). (type ++ b' ' ∷ []) ++ (y ++ (b' ' ∷ http))) e
        ∙ simp append_assoc in
      let four = length-append front host in
      parse_target (length front + length host) (b'/' ∷ path)
        (path_begin_behind x _ scheme (b'/' ∷ b'/' ∷ (host ++ b'/' ∷ path)) from _ e ne e colon refl
          (find_slash front host (path ++ b' ' ∷ http) from split (omega (arith, one, two, three))
            slash))
        (substr_at line (front ++ host) (b'/' ∷ path) (b' ' ∷ http) _ _
          (split ∙ sym (append_assoc front host (b'/' ∷ (path ++ b' ' ∷ http))))
          (omega (arith, four))
          (omega (arith, one, two, three, four, all, tail, (sizes type target http fits))))

  -- In a line that fits in memory, with no space in its type and its target: a target that
  -- does not begin with a slash, and has none behind "scheme:" and two more bytes, such as
  -- "host:443" or "http://host", has no path. If the version has a slash behind one byte or
  -- more, that is the slash found, and the url is what stands from it to the end of the line.
  pub parse_no_path :
      (x : ℕ) (s rest protocol version : Bytes)
      → http ≡ protocol ++ b'/' ∷ version
      → target ≡ (x ∷ s) ++ b':' ∷ rest
      → x ≢ b'/'
      → Lacks b':' (x ∷ s)
      → Lacks b'/' (drop 2 rest)
      → Lacks b'/' protocol
      → 1 ≤ length protocol
      → parse line ≡ ok (record { type = type; url = b'/' ∷ version; http = http })
  parse_no_path x s rest protocol version h e ne colon slash slash' some_protocol =
      let scheme = x ∷ s in
      let gap = rest ++ (b' ' ∷ protocol) in
      let front = (type ++ b' ' ∷ []) ++ (scheme ++ (b':' ∷ take 2 gap)) in
      let from = length type + 1 + length scheme + 3 in
      let one = length-append type (b' ' ∷ []) in
      let two = length-append (type ++ b' ' ∷ []) (scheme ++ (b':' ∷ take 2 gap)) in
      let three = length-append scheme (b':' ∷ take 2 gap) in
      let room = length-append rest (b' ' ∷ protocol) in
      let taken = length-take 2 gap in
      let dropped = length-drop 2 gap in
      let all = ap length e ∙ length-append scheme (b':' ∷ rest) in
      let long = ap length h ∙ length-append protocol (b'/' ∷ version) in
      let split : line ≡ front ++ (drop 2 gap ++ b'/' ∷ version) =
        (behind_first type target http fits)
        ∙ ap (λ (y : Bytes). (type ++ b' ' ∷ []) ++ (y ++ (b' ' ∷ http))) e
        ∙ ap (λ (y : Bytes). (type ++ b' ' ∷ []) ++ ((scheme ++ b':' ∷ rest) ++ (b' ' ∷ y))) h
        ∙ ap (λ (y : Bytes). (type ++ b' ' ∷ []) ++ y)
            (regroup scheme rest protocol version (take 2 gap) (drop 2 gap)
              (take-append-drop 2 gap))
        ∙ sym (
            append_assoc (type ++ b' ' ∷ []) (scheme ++ (b':' ∷ take 2 gap))
              (drop 2 gap ++ b'/' ∷ version)) in
      let four = length-append front (drop 2 gap) in
      parse_target (length front + length (drop 2 gap)) (b'/' ∷ version)
        (path_begin_behind x _ scheme rest from _ e ne e colon refl (
          find_slash front (drop 2 gap) version from split
            (omega (arith, one, two, three, taken, room))
            (Lacks-drop_two rest protocol slash slash')))
        (substr_rest line (front ++ drop 2 gap) (b'/' ∷ version) _ _
          (split ∙ sym (append_assoc front (drop 2 gap) (b'/' ∷ version))) (omega (arith, four))
          (omega (
            arith,
            one,
            two,
            three,
            four,
            all,
            long,
            taken,
            dropped,
            room,
            (sizes type target http fits),
          )))
