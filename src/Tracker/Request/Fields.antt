-- ===== src/Tracker/Request/Fields.antt =====
-- The header of a request whose header lines are written as names and values.
use mirror_agent.Base.{
  ◌+◌, List, [], ◌∷◌, ◌++◌, map, ◌≡◌, refl, sym, ap, ◌∙◌, arith, if◌then◌else◌, Bytes, length, take,
  drop, All, take-length-append, drop-length-append, append_assoc, append-nil, drop-drop,
}
use mirror_agent.Go.Panic.{returned}
use mirror_agent.Go.Strings.{equal, trim_space}
use mirror_agent.Go.Strings.Index.{index-skip}
use mirror_agent.Go.Header.{Header, values, add, canonical_key}
use mirror_agent.Go.Header.Laws.{values-add_key}
use mirror_agent.Tracker.Request.{
  CapturedRequest, complete, add_at, add_line, add_lines, parse_one_request,
}
use mirror_agent.Tracker.Request.Written.{Lacks, Written, IsWritten, render}
use mirror_agent.Tracker.Request.Framing.{captured, parse_one_request-render}

-- A header line: what stands in front of its colon, and behind it; and its name and value.
pub record Field : Type 0 where
  pub before : Bytes
  pub behind : Bytes
  pub name : Bytes
  pub value : Bytes

abbrev pub field_line : Field → Bytes
field_line f = f.before ++ (b':' ∷ f.behind)

-- The colon is the line's first, and but for white space around them (strings.TrimSpace), the name stands
-- in front of it and the value behind it.
pub record IsField (f : Field) : Type 0 where
  pub first_colon : Lacks b':' f.before
  pub name_is : trim_space f.before ≡ f.name
  pub value_is : trim_space f.behind ≡ f.value

-- The values that stand behind a name that is canonically this one, in their order.
abbrev pub field_values : Bytes → List Field → List Bytes
field_values k [] = []
field_values k (f ∷ fs) =
    let rest = field_values k fs in if equal (canonical_key f.name) k then f.value ∷ rest else rest

add_line-field :
    (h : Header) (f : Field) → IsField f → add_line h (field_line f) ≡ add h f.name f.value
unfolding add_line add_at
add_line-field h f v =
    let here = index-skip f.before b':' [] f.behind v.first_colon in
    let name : trim_space (take (length f.before) (field_line f)) ≡ f.name =
      ap trim_space (take-length-append f.before (b':' ∷ f.behind)) ∙ v.name_is in
    let value : trim_space (drop (length f.before + 1) (field_line f)) ≡ f.value =
      ap trim_space (
        sym (drop-drop (length f.before) 1 (field_line f))
        ∙ ap (drop 1) (drop-length-append f.before (b':' ∷ f.behind)))
      ∙ v.value_is in
    rw (here, name, value) refl

values-add_lines :
    (h : Header) (fs : List Field) (k : Bytes)
    → All IsField fs
    → values (add_lines h (map field_line fs)) k ≡ values h k ++ field_values k fs
unfolding add_lines add
values-add_lines h [] k v = sym (append-nil (values h k))
values-add_lines h (f ∷ fs) k v =
    ap (λ x. values (add_lines x (map field_line fs)) k) (add_line-field h f v.0)
    ∙ values-add_lines (add h f.name f.value) fs k v.1
    ∙ ap (λ x. x ++ field_values k fs) (values-add_key h (canonical_key f.name) k f.value)
    ∙ ground (arith, append_assoc (values h k) (f.value ∷ []) (field_values k fs))

no_values : (k : Bytes) (vs : List Bytes) → values [] k ++ vs ≡ vs
unfolding values
no_values k vs = refl

-- A written request whose header lines are fields is read back, whatever follows it, and exactly its own
-- bytes are consumed: its method, its path, its body, and under each name the values of the fields with
-- that name (in whatever case it is written), without the white space around names and values, all of
-- them and in order.
pub parse_one_request-fields :
    (w : Written) (fs : List Field) (rest : Bytes)
    → IsWritten w
    → w.lines ≡ map field_line fs
    → All IsField fs
    → (r : CapturedRequest) × (parse_one_request (render w ++ rest)
        ≡ returned (complete r (length (render w))))
      × (r.method ≡ w.method)
      × (r.path ≡ w.path)
      × (r.body ≡ w.body)
      × ((k : Bytes) → values r.headers k ≡ field_values k fs)
parse_one_request-fields w fs rest v e fields = (
  captured w,
  parse_one_request-render w v rest,
  refl,
  refl,
  refl,
  λ k. ap (λ ls. values (add_lines [] ls) k) e ∙ values-add_lines [] fs k fields ∙ no_values k _,
)
