-- ===== src/Tracker/Request/Written.antt =====
-- A request as a client writes it: a request line, header lines, a blank line, a body. Its head is
-- cut back into its lines.
use mirror_agent.Base.{
  ℕ, zero, suc, ◌+◌, ◌≤◌, ◌<◌, some, List, [], ◌∷◌, ◌++◌, ◌≡◌, ◌≢◌, refl, sym, ap, ◌∙◌, arith,
  Bytes, length, drop, All, length-append, take-length-append, drop-length-append, append_assoc,
  append-nil, drop-drop, pos, int_limit,
}
use mathlib.Core.Path.{ap₂}
use mirror_agent.Go.Strings.{has_prefix, index, split, split_n, split_rounds}
use mirror_agent.Go.Strings.Index.{index-skip, index-none}
use mirror_agent.Tracker.Request.{crlf, crlf_crlf, add_lines, content_length, max_alloc}

pub record Written : Type 0 where
  pub method : Bytes
  pub path : Bytes
  pub version : Bytes
  pub lines : List Bytes
  pub body : Bytes

abbrev pub Lacks : ℕ → Bytes → Type 0
Lacks b = All (λ c. c ≢ b)

abbrev IsLine : Bytes → Type 0
IsLine l = Lacks 13 l × (l ≢ [])

abbrev pub request_line : Written → Bytes
request_line w = w.method ++ (32 ∷ (w.path ++ (32 ∷ w.version)))

-- Each line behind the end of the one before.
abbrev pub joined : List Bytes → Bytes
joined [] = []
joined (l ∷ ls) = 13 ∷ 10 ∷ (l ++ joined ls)

abbrev pub head : Written → Bytes
head w = request_line w ++ joined w.lines

abbrev pub render : Written → Bytes
render w = head w ++ (13 ∷ 10 ∷ 13 ∷ 10 ∷ w.body)

-- Method and path have no space, no line has a carriage return, no header line is empty.
pub record IsPlain (w : Written) : Type 0 where
  pub method_plain : Lacks 32 w.method
  pub path_plain : Lacks 32 w.path
  pub method_on_line : Lacks 13 w.method
  pub path_on_line : Lacks 13 w.path
  pub version_on_line : Lacks 13 w.version
  pub lines_plain : All IsLine w.lines

-- Also, the body is as long as Content-Length says, and an int can hold the length of the whole.
pub record IsWritten (w : Written) : Type 0 where
  pub plain : IsPlain w
  pub open plain use *
  pub declared : content_length (add_lines [] w.lines) ≡ pos (length w.body)
  pub allocable : length w.body ≤ max_alloc
  pub fits : length (render w) < int_limit

Lacks-append : (b : ℕ) (xs ys : Bytes) → Lacks b xs → Lacks b ys → Lacks b (xs ++ ys)
Lacks-append b [] ys h k = k
Lacks-append b (x ∷ xs) ys h k = (h.0, Lacks-append b xs ys h.1 k)

pub request_line_plain : (w : Written) → IsPlain w → Lacks 13 (request_line w)
request_line_plain w v =
    Lacks-append 13 w.method _ v.method_on_line
      (omega arith, Lacks-append 13 w.path _ v.path_on_line (omega arith, v.version_on_line))

index-past :
    (l s : Bytes) (i : ℕ)
    → Lacks 13 l
    → index s crlf_crlf ≡ some i
    → index (l ++ s) crlf_crlf ≡ some (length l + i)
unfolding index has_prefix
index-past [] s i h e = e ∙ ap some (omega arith)
index-past (c ∷ l) s i h e = ground (arith, index-past l s i h.1 e)

index-crlf :
    (l s : Bytes) (i : ℕ)
    → IsLine l
    → index (l ++ s) crlf_crlf ≡ some i
    → index (13 ∷ 10 ∷ (l ++ s)) crlf_crlf ≡ some (suc (suc i))
unfolding index has_prefix
index-crlf [] s i h e = absurd (h.1 refl)
index-crlf (c ∷ l) s i h e = ground arith

-- The blank line is found behind the head, not sooner.
pub index-joined :
    (l : Bytes) (ls : List Bytes) (rest : Bytes)
    → Lacks 13 l
    → All IsLine ls
    → index ((l ++ joined ls) ++ (13 ∷ 10 ∷ 13 ∷ 10 ∷ rest)) crlf_crlf
      ≡ some (length (l ++ joined ls))
index-joined l [] rest h k = rw append-nil (index-skip l 13 (10 ∷ 13 ∷ 10 ∷ []) rest h)
index-joined l (m ∷ ls) rest h k =
    let x : Bytes = 13 ∷ 10 ∷ 13 ∷ 10 ∷ rest in
    let n = length (m ++ joined ls) in
    let inner : index (m ++ (joined ls ++ x)) crlf_crlf ≡ some n =
      ap (λ z. index z crlf_crlf) (sym (append_assoc m (joined ls) x))
      ∙ index-joined m ls rest k.0.0 k.1 in
    ap (λ z. index z crlf_crlf)
      (append_assoc l (joined (m ∷ ls)) x
        ∙ ap (λ z. l ++ (13 ∷ 10 ∷ z)) (append_assoc m (joined ls) x))
    ∙ index-past l (13 ∷ 10 ∷ (m ++ (joined ls ++ x))) (suc (suc n)) h
        (index-crlf m (joined ls ++ x) n k.0 inner)
    ∙ ap some (omega (arith, length-append l (joined (m ∷ ls))))

drop-behind : (l : Bytes) (a b : ℕ) (s : Bytes) → drop (length l + 2) (l ++ (a ∷ b ∷ s)) ≡ s
drop-behind l a b s =
    sym (drop-drop (length l) 2 (l ++ (a ∷ b ∷ s))) ∙ ap (drop 2) (drop-length-append l (a ∷ b ∷ s))

drop-behind_one : (l : Bytes) (a : ℕ) (s : Bytes) → drop (length l + 1) (l ++ (a ∷ s)) ≡ s
drop-behind_one l a s =
    sym (drop-drop (length l) 1 (l ++ (a ∷ s))) ∙ ap (drop 1) (drop-length-append l (a ∷ s))

-- The lines of a head, cut at their ends.
split_rounds-joined :
    (n : ℕ) (l : Bytes) (ls : List Bytes)
    → length ls ≤ n
    → Lacks 13 l
    → All IsLine ls
    → split_rounds n (l ++ joined ls) crlf ≡ l ∷ ls
unfolding split_rounds
split_rounds-joined zero l [] h p q = rw append-nil
split_rounds-joined zero l (m ∷ ls) h p q = absurd (omega arith)
split_rounds-joined (suc n) l [] h p q =
    rw append-nil (rw (index-none l 13 (10 ∷ []) p, split_rounds))
split_rounds-joined (suc n) l (m ∷ ls) h p q =
    rw (index-skip l 13 (10 ∷ []) (m ++ joined ls) p, split_rounds)
      (ap₂ ◌∷◌ (take-length-append l (joined (m ∷ ls))) (
        ap (λ z. split_rounds n z crlf) (drop-behind l 13 10 (m ++ joined ls))
        ∙ split_rounds-joined n m ls (omega arith) q.0.0 q.1))

length-joined : (ls : List Bytes) → length ls ≤ length (joined ls)
length-joined [] = omega arith
length-joined (l ∷ ls) = omega (arith, length-joined ls, length-append l (joined ls))

pub split-head : (w : Written) → IsPlain w → split (head w) crlf ≡ request_line w ∷ w.lines
unfolding split
split-head w v =
    split_rounds-joined (length (head w)) (request_line w) w.lines
      (omega (arith, length-joined w.lines, length-append (request_line w) (joined w.lines)))
      (request_line_plain w v) v.lines_plain

pub split_n-request_line :
    (w : Written)
    → IsPlain w
    → split_n (request_line w) (32 ∷ []) 3 ≡ w.method ∷ w.path ∷ w.version ∷ []
unfolding split_n
split_n-request_line w v =
    rw (index-skip w.method 32 [] (w.path ++ (32 ∷ w.version)) v.method_plain, split_rounds)
      (ap₂ ◌∷◌ (take-length-append w.method _) (
        ap (λ z. split_rounds 1 z (32 ∷ []))
          (drop-behind_one w.method 32 (w.path ++ (32 ∷ w.version)))
        ∙ rw (index-skip w.path 32 [] w.version v.path_plain, split_rounds)
            (ap₂ ◌∷◌ (take-length-append w.path _)
              (ap (λ z. z ∷ []) (drop-behind_one w.path 32 w.version)))))
