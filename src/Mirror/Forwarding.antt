-- ===== src/Mirror/Forwarding.antt =====
-- Which headers of a captured request doSend puts into the mirrored request. (Of these net/http itself
-- writes Host, Content-Length, Transfer-Encoding and Trailer from other fields of the request.)
use mirror_agent.Base.{
  ℕ, Bool, ◌||◌, Option, none, some, List, [], ◌∷◌, ◌++◌, ◌≡◌, inl, inr, refl, ◌∙◌, arith,
  if◌then◌else◌, Bytes, codes, Bool-cases, append-nil, append_assoc,
}
use mirror_agent.Go.Strings.{equal, index, to_lower}
use mirror_agent.Go.Strings.Equal.{equal_iff}
use mirror_agent.Go.Header.{Header, values, add, set, canonical_key}
use mirror_agent.Go.Header.Laws.{
  values-add_key, values-set_key, IsHeader, values_none, add-IsHeader,
}
use mirror_agent.Go.Panic.{returned}
use mirror_agent.Tracker.Request.{
  CapturedRequest, complete, add_at, add_line, add_lines, parse_one_request,
}
use mirror_agent.Tracker.Request.Complete.{parse_one_request-IsFramed}
use mirror_agent.Mirror.{among, is_hop_by_hop, add_all, copy_headers, out_headers}

values-add :
    (h : Header) (k j v : Bytes)
    → canonical_key k ≡ k
    → values (add h k v) j ≡ (if equal k j then values h j ++ (v ∷ []) else values h j)
unfolding add
values-add h k j v c = rw c (values-add_key h k j v)

values-add_all :
    (h : Header) (k j : Bytes) (vs : List Bytes)
    → canonical_key k ≡ k
    → values (add_all h k vs) j ≡ (if equal k j then values h j ++ vs else values h j)
unfolding add_all
values-add_all h k j [] c = ground (arith, append-nil (values h j))
values-add_all h k j (v ∷ vs) c = ground (
  arith,
  values-add_all (add h k v) k j vs c,
  values-add h k j v c,
  append_assoc (values h j) (v ∷ []) vs,
)

-- The name is one of these, in whatever case it is written.
abbrev pub is_connection_name : Bytes → Bool
is_connection_name j =
    let name = to_lower j in
    equal name (codes "connection")
    || equal name (codes "keep-alive")
    || equal name (codes "proxy-authenticate")
    || equal name (codes "proxy-authorization")
    || equal name (codes "te")
    || equal name (codes "trailers")
    || equal name (codes "transfer-encoding")
    || equal name (codes "upgrade")

is_hop_by_hop_lem : (j : Bytes) → is_hop_by_hop j ≡ is_connection_name j
unfolding is_hop_by_hop among
is_hop_by_hop_lem j = ground arith

-- What stays of the values under a name.
abbrev pub forwarded : Bytes → List Bytes → List Bytes
forwarded j vs = if is_connection_name j then [] else vs

abbrev copied_values : Bytes → List Bytes → List Bytes
copied_values j vs = if is_hop_by_hop j then [] else vs

values-copy_headers :
    (h out : Header) (j : Bytes)
    → IsHeader h
    → values (copy_headers out h) j ≡ values out j ++ copied_values j (values h j)
unfolding copy_headers values
values-copy_headers [] out j w = ground (arith, append-nil (values out j))
values-copy_headers ((k, vs) ∷ h) out j w = elim (Bool-cases (is_hop_by_hop k)) [
  | inl hop ↦ rw hop (values-copy_headers h out j w.2 ∙ ground (arith, equal_iff k j))
  | inr end_to_end ↦ rw end_to_end (
      values-copy_headers h (add_all out k vs) j w.2
      ∙ ground (
        arith,
        values-add_all out k j vs w.0,
        equal_iff k j,
        values_none k h w.1,
        append_assoc (values out j) vs [],
        append-nil vs,
      ))
]

canonical_names :
    (canonical_key (codes "X-Mirror-Source") ≡ codes "X-Mirror-Source")
    × (canonical_key (codes "X-Original-Client") ≡ codes "X-Original-Client")
unfolding canonical_key
canonical_names = (refl, refl)

-- Of a captured request whose header is a map with canonical names, the request that doSend gives to
-- the http.Client has under each name in its Header: under X-Original-Client the client's address,
-- under X-Mirror-Source the agent's mark, whatever the client sent there; nothing under connection,
-- keep-alive, proxy-authenticate, proxy-authorization, te, trailers, transfer-encoding and upgrade, in
-- whatever case; under any other name the client's values, all of them and in order.
pub values-out_headers :
    (r : CapturedRequest) (j : Bytes)
    → IsHeader r.headers
    → values (out_headers r) j ≡ (
        if equal (codes "X-Original-Client") j
        then r.src_ip ∷ []
        else if equal (codes "X-Mirror-Source") j
        then codes "ebpf-mirror-agent" ∷ []
        else forwarded j (values r.headers j))
unfolding out_headers set
values-out_headers r j w =
    let copied = copy_headers [] r.headers in
    rw (canonical_names.0, canonical_names.1)
      (rw values-set_key (
        rw values-set_key
          (rw (values-copy_headers r.headers [] j w, is_hop_by_hop_lem j) (unfold values in refl))))

add_at-IsHeader :
    (h : Header) (line : Bytes) (o : Option ℕ) → IsHeader h → IsHeader (add_at h line o)
unfolding add_at
add_at-IsHeader h line none w = w
add_at-IsHeader h line (some i) w = add-IsHeader h _ _ w

add_lines-IsHeader : (h : Header) (lines : List Bytes) → IsHeader h → IsHeader (add_lines h lines)
unfolding add_lines add_line
add_lines-IsHeader h [] w = w
add_lines-IsHeader h (line ∷ lines) w =
    add_lines-IsHeader (add_line h line) lines (add_at-IsHeader h line (index line (b':' ∷ [])) w)

-- The header of every request that parseOneRequest completes is such a map.
pub parse_one_request-IsHeader :
    (buf : Bytes) (r : CapturedRequest) (n : ℕ)
    → parse_one_request buf ≡ returned (complete r n)
    → IsHeader r.headers
parse_one_request-IsHeader buf r n q =
    let (i, e, f) = parse_one_request-IsFramed buf r n q in
    rw f.headers_are (add_lines-IsHeader [] f.lines tt)
