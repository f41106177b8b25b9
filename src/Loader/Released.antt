-- ===== src/Loader/Released.antt =====
-- No handle is leaked or closed twice.
use mirror_agent.Base.{
  ℕ, Bool, true, false, Option, none, some, List, [], ◌∷◌, ◌++◌, ◌≡◌, refl, if◌then◌else◌, Bytes,
  if_both,
}
use mirror_agent.Loader.{
  Handle, collection, reader, filter, Effect, opened, closed, put_port, qdisc_add, System, Loaded,
  loader, load_failed, Loading, first_do, add_filter, attach, on_link, open_reader, configure,
  new_loader, close,
}

-- Which handles are open.
pub record Handles : Type 0 where
  pub collection_open : Bool
  pub reader_open : Bool
  pub filter_open : Bool

abbrev pub none_open : Handles
none_open = record { collection_open = false; reader_open = false; filter_open = false }

abbrev pub all_open : Handles
all_open = record { collection_open = true; reader_open = true; filter_open = true }

abbrev is_open : Handle → Handles → Bool
is_open collection h = h.collection_open
is_open reader h = h.reader_open
is_open filter h = h.filter_open

abbrev set_open : Handle → Bool → Handles → Handles
set_open collection b h = record h { collection_open = b }
set_open reader b h = record h { reader_open = b }
set_open filter b h = record h { filter_open = b }

-- One effect: `none` if it opens what is open, or closes or uses what is not.
abbrev pub step : Effect → Handles → Option Handles
step (opened x) h = if is_open x h then none else some (set_open x true h)
step (closed x) h = if is_open x h then some (set_open x false h) else none
step (put_port n) h = if h.collection_open then some h else none
step (qdisc_add n) h = some h

abbrev pub step_on : Effect → Option Handles → Option Handles
step_on e none = none
step_on e (some h) = step e h

abbrev pub replay : List Effect → Option Handles → Option Handles
replay [] o = o
replay (e ∷ es) o = replay es (step_on e o)

-- From `h`, a failed load ends with no handle open; one that succeeds ends with all open, and Close
-- then closes them.
abbrev EndsWell : Handles → List Effect → Loaded → Type 0
EndsWell h es (loader index fd) =
    (replay es (some h) ≡ some all_open) × (replay (es ++ close) (some h) ≡ some none_open)
EndsWell h es (load_failed why) = replay es (some h) ≡ some none_open

pub record Releases (h : Handles) (l : Loading) : Type 0 where
  pub ends : EndsWell h l.0 l.1

abbrev holding : Bool → Handles
holding with_reader = record {
  collection_open = true;
  reader_open = with_reader;
  filter_open = false;
}

first_do-Releases :
    (e : Effect) (h h' : Handles) (l : Loading)
    → step e h ≡ some h'
    → Releases h' l
    → Releases h (first_do e l)
first_do-Releases e h h' (es, loader index fd) q r = record { ends = rw q r.ends }
first_do-Releases e h h' (es, load_failed why) q r = record { ends = rw q r.ends }

add_filter-Releases :
    (sys : System) (index fd : ℕ) → Releases (holding true) (add_filter sys index fd)
unfolding add_filter close
add_filter-Releases sys index fd =
    if_both (Releases (holding true)) (sys.adds_filter index fd) (record { ends = (refl, refl) })
      (record { ends = refl })

attach-Releases :
    (sys : System) (index : ℕ) (program : Option ℕ)
    → Releases (holding true) (attach sys index program)
unfolding attach
attach-Releases sys index none = record { ends = refl }
attach-Releases sys index (some fd) = add_filter-Releases sys index fd

on_link-Releases :
    (sys : System) (obj : Bytes) (link : Option ℕ) → Releases (holding true) (on_link sys obj link)
unfolding on_link
on_link-Releases sys obj none = record { ends = refl }
on_link-Releases sys obj (some index) =
    first_do-Releases (qdisc_add index) _ _ _ refl (attach-Releases sys index (sys.program obj))

open_reader-Releases :
    (sys : System) (obj iface : Bytes) → Releases (holding false) (open_reader sys obj iface)
unfolding open_reader
open_reader-Releases sys obj iface =
    if_both (Releases (holding false)) (sys.has_rb_map obj)
      (if_both (Releases (holding false)) sys.makes_reader
        (first_do-Releases (opened reader) _ _ _ refl
          (on_link-Releases sys obj (sys.link_by_name iface)))
        (record { ends = refl }))
      (record { ends = refl })

configure-Releases :
    (sys : System) (obj iface : Bytes) (port : ℕ)
    → Releases (holding false) (configure sys obj iface port)
unfolding configure
configure-Releases sys obj iface port =
    if_both (Releases (holding false)) (sys.has_cfg_map obj)
      (if_both (Releases (holding false)) (sys.puts port)
        (first_do-Releases (put_port port) _ _ _ refl (open_reader-Releases sys obj iface))
        (record { ends = refl }))
      (record { ends = refl })

-- Whatever the libraries answer: on every error NewLoader has closed each handle that it opened, once
-- and while it was open; if it succeeds, the collection, the reader and the filter are open, and Close
-- closes each of them once.
pub new_loader-Releases :
    (sys : System) (obj iface : Bytes) (port : ℕ)
    → Releases none_open (new_loader sys obj iface port)
unfolding new_loader
new_loader-Releases sys obj iface port =
    if_both (Releases none_open) (sys.loads_spec obj)
      (if_both (Releases none_open) (sys.makes_collection obj)
        (first_do-Releases (opened collection) _ _ _ refl (configure-Releases sys obj iface port))
        (record { ends = refl }))
      (record { ends = refl })
