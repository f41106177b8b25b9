-- ===== src/Loader.antt =====
-- mirror-agent/loader.go: NewLoader and Close, as the sequences of their effects, and the lines that
-- PrintStats logs. (The parsing of the ring buffer's records is in Event.)
pub mod Released
use mirror_agent.Base.{
  ℕ, Bool, true, false, Option, none, some, List, [], ◌∷◌, ◌++◌, if◌then◌else◌, Bytes, codes,
}
use mirror_agent.Go.Strconv.{decimal}

-- What NewLoader opens and Close has to let go.
pub data Handle : Type 0 where
  collection reader filter : Handle

-- `put_port` writes the cfg_target_port map. Adding the qdisc is allowed to fail and never undone.
pub data Effect : Type 0 where
  opened closed : Handle → Effect
  put_port : ℕ → Effect
  qdisc_add : ℕ → Effect

-- What the libraries answer: cilium/ebpf on the object file at a path, its maps and its program (with
-- its file descriptor), and netlink on the interface (with its index).
pub record System : Type 0 where
  pub loads_spec : Bytes → Bool
  pub makes_collection : Bytes → Bool
  pub has_cfg_map : Bytes → Bool
  pub puts : ℕ → Bool
  pub has_rb_map : Bytes → Bool
  pub makes_reader : Bool
  pub link_by_name : Bytes → Option ℕ
  pub program : Bytes → Option ℕ
  pub adds_filter : ℕ → ℕ → Bool

pub data LoadError : Type 0 where
  no_spec no_collection no_cfg_map port_not_set no_rb_map no_reader no_link no_program
        filter_not_added :
      LoadError

-- A loader, on the link with an index and the program with a file descriptor, or an error.
pub data Loaded : Type 0 where
  loader : ℕ → ℕ → Loaded
  load_failed : LoadError → Loaded

abbrev pub Loading : Type 0
Loading = List Effect × Loaded

abbrev pub first_do : Effect → Loading → Loading
first_do e (es, r) = (e ∷ es, r)

-- The early returns before the reader is there, and behind it.
abbrev give_up : LoadError → Loading
give_up why = (closed collection ∷ [], load_failed why)

abbrev give_up_reader : LoadError → Loading
give_up_reader why = (closed reader ∷ closed collection ∷ [], load_failed why)

unfoldable pub add_filter : System → ℕ → ℕ → Loading
add_filter sys index fd =
    if sys.adds_filter index fd
    then (opened filter ∷ [], loader index fd)
    else give_up_reader filter_not_added

unfoldable pub attach : System → ℕ → Option ℕ → Loading
unfolding add_filter
attach sys index none = give_up_reader no_program
attach sys index (some fd) = add_filter sys index fd

unfoldable pub on_link : System → Bytes → Option ℕ → Loading
unfolding attach
on_link sys obj none = give_up_reader no_link
on_link sys obj (some index) = first_do (qdisc_add index) (attach sys index (sys.program obj))

unfoldable pub open_reader : System → Bytes → Bytes → Loading
unfolding on_link
open_reader sys obj iface =
    if sys.has_rb_map obj
    then (if sys.makes_reader
        then first_do (opened reader) (on_link sys obj (sys.link_by_name iface))
        else give_up no_reader)
    else give_up no_rb_map

unfoldable pub configure : System → Bytes → Bytes → ℕ → Loading
unfolding open_reader
configure sys obj iface port =
    if sys.has_cfg_map obj
    then (if sys.puts port
        then first_do (put_port port) (open_reader sys obj iface)
        else give_up port_not_set)
    else give_up no_cfg_map

unfoldable pub new_loader : System → Bytes → Bytes → ℕ → Loading
unfolding configure
new_loader sys obj iface port =
    if sys.loads_spec obj
    then (if sys.makes_collection obj
        then first_do (opened collection) (configure sys obj iface port)
        else ([], load_failed no_collection))
    else ([], load_failed no_spec)

-- Close. (An error of the filter's removal is logged only.)
unfoldable pub close : List Effect
close = closed reader ∷ closed filter ∷ closed collection ∷ []

-- A line for a counter that is found.
abbrev counter_line : Bytes → Option ℕ → List Bytes
counter_line label none = []
counter_line label (some v) = (label ++ decimal v) ∷ []

-- PrintStats, with the lookup in the counters map, if the collection has that map.
unfoldable pub print_counters : Option (ℕ → Option ℕ) → List Bytes
print_counters none = []
print_counters (some lookup) =
    counter_line (codes "stats: matched_packets=") (lookup 0)
    ++ counter_line (codes "stats: ringbuf_drops=") (lookup 1)
