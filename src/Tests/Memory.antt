-- ===== src/Tests/Memory.antt =====
-- A platform in memory: tables are lists, the Redis server is a function from keys to cells.
use Prim.Native.String.{String}
use obbian_ribe_booking_app.Base.{
  ◌-◌, ◌/◌, ℕ, zero, suc, ◌+◌, ◌*◌, ◌≤◌, ◌<◌, ◌≡◌, refl, Bool, true, false, Option, none, some,
  List, [], ◌∷◌, ◌++◌, ltb, ◌==◌, if◌then◌else◌, map_where, ℤ, pos, negsuc, ◌+ℤ◌, arith,
}
use obbian_ribe_booking_app.Platform.{
  Platform, RedisKey, TextKey, Position, same_key, same_text_key, counter,
}

-- A value and the time at which it expires.
pub record Cell : Type 0 where
  pub value : ℤ
  pub expires : Option ℕ

pub record Server : Type 0 where
  pub cells : RedisKey → Option Cell
  pub positions : ℕ → Option (Position × ℕ)
  pub members : List ℕ
  pub texts : TextKey → Option (String × ℕ)

abbrev live : ℕ → Option Cell → Option ℤ
live now none = none
live now (some c) = elim c.expires [
  | none ↦ some c.value
  | some t ↦ if ltb now t then some c.value else none
]

abbrev get : ℕ → RedisKey → Server → Option ℤ
get now k s = live now (s.cells k)

abbrev put : RedisKey → (Option Cell → Option Cell) → Server → Server
put k f s = record s { cells = λ j. if same_key k j then f (s.cells j) else s.cells j }

abbrev pub set : ℕ → RedisKey → ℤ → ℕ → Server → Server
set now k v ttl = put k (λ _. some (record { value = v; expires = some (now + 1000 * ttl) }))

abbrev set_nx : ℕ → RedisKey → ℤ → ℕ → Server → Bool × Server
set_nx now k v ttl s = elim (get now k s) [ none ↦ (true, set now k v ttl s) | some _ ↦ (false, s) ]

-- A counter that is created has no expiry.
abbrev kept : Option ℤ → Option Cell → Option ℕ
kept (some v) (some c) = c.expires
kept _ _ = none

abbrev count_by : ℤ → ℕ → RedisKey → Server → ℤ × Server
count_by step now k s =
    let n = counter (get now k s) +ℤ step in
    let c : Cell = record { value = n; expires = kept (get now k s) (s.cells k) } in
    (n, put k (λ _. some c) s)

abbrev refresh : ℕ → ℕ → Option Cell → Option Cell
refresh now ttl none = none
refresh now ttl (some c) = elim (live now (some c)) [
  | none ↦ none
  | some v ↦ some (record { value = v; expires = some (now + 1000 * ttl) })
]

abbrev without : ℕ → List ℕ → List ℕ
without d [] = []
without d (x ∷ xs) = let rest = without d xs in if d == x then rest else x ∷ rest

abbrev contains : ℕ → List ℕ → Bool
contains e [] = false
contains e (x ∷ xs) = if x == e then true else contains e xs

abbrev take : ℕ → List ℕ → List ℕ
take zero xs = []
take (suc n) [] = []
take (suc n) (x ∷ xs) = x ∷ take n xs

pub get-set :
    (now later : ℕ) (k j : RedisKey) (v : ℤ) (ttl : ℕ) (s : Server)
    → now ≤ later
    → get later j (set now k v ttl s) ≡ (
        if same_key k j
        then (if ltb later (now + 1000 * ttl) then some v else none)
        else get later j s)
get-set now later k j v ttl s h = ground arith

live-kept :
    (now : ℕ) (c : Option Cell) (n : ℤ)
    → live now (some (record { value = n; expires = kept (live now c) c })) ≡ some n
live-kept now c n = ground arith

pub get-count_by :
    (step : ℤ) (now : ℕ) (k j : RedisKey) (s : Server)
    → get now j (count_by step now k s).1
      ≡ (if same_key k j then some (count_by step now k s).0 else get now j s)
get-count_by step now k j s = ground (arith, live-kept now (s.cells k) (count_by step now k s).0)

live-refresh : (now ttl : ℕ) (c : Option Cell) → 0 < ttl → live now (refresh now ttl c) ≡ live now c
live-refresh now ttl c h = ground arith

pub get-expire :
    (now : ℕ) (k j : RedisKey) (ttl : ℕ) (s : Server)
    → 0 < ttl
    → get now j (put k (refresh now ttl) s) ≡ get now j s
get-expire now k j ttl s h = ground (arith, live-refresh now ttl (s.cells j))

pub contains-without :
    (d e : ℕ) (xs : List ℕ) → contains e (without d xs) ≡ (if d == e then false else contains e xs)
contains-without d e [] = ground arith
contains-without d e (x ∷ xs) = ground (arith, contains-without d e xs)

abbrev set_position : ℕ → ℕ → Position → ℕ → Server → Server
set_position now d p ttl s = record s {
  positions = λ e. if d == e then some (p, now + 1000 * ttl) else s.positions e;
}

abbrev live_position : ℕ → Option (Position × ℕ) → Option Position
live_position now none = none
live_position now (some (p, t)) = if ltb now t then some p else none

abbrev get_position : ℕ → ℕ → Server → Option Position
get_position now d s = live_position now (s.positions d)

pub set_nx-free :
    (now : ℕ) (k : RedisKey) (v : ℤ) (ttl : ℕ) (s : Server)
    → get now k s ≡ none
    → set_nx now k v ttl s ≡ (true, set now k v ttl s)
set_nx-free now k v ttl s e = ground arith

pub set_nx-taken :
    (now : ℕ) (k : RedisKey) (v : ℤ) (ttl : ℕ) (s : Server) {u : ℤ}
    → get now k s ≡ some u
    → set_nx now k v ttl s ≡ (false, s)
set_nx-taken now k v ttl s e = ground arith

pub get-del :
    (now : ℕ) (k j : RedisKey) (s : Server)
    → get now j (put k (λ _. none) s) ≡ (if same_key k j then none else get now j s)
get-del now k j s = ground arith

pub get_position-set_position :
    (now later d e : ℕ) (p : Position) (ttl : ℕ) (s : Server)
    → now ≤ later
    → get_position later e (set_position now d p ttl s) ≡ (
        if d == e
        then (if ltb later (now + 1000 * ttl) then some p else none)
        else get_position later e s)
get_position-set_position now later d e p ttl s h = ground arith

abbrev live_text : ℕ → Option (String × ℕ) → Option String
live_text now none = none
live_text now (some (v, t)) = if ltb now t then some v else none

abbrev get_text : ℕ → TextKey → Server → Option String
get_text now k s = live_text now (s.texts k)

abbrev put_text : TextKey → Option (String × ℕ) → Server → Server
put_text k c s = record s { texts = λ j. if same_text_key k j then c else s.texts j }

abbrev set_text : ℕ → TextKey → String → ℕ → Server → Server
set_text now k v seconds = put_text k (some (v, now + 1000 * seconds))

abbrev left : ℕ → Option (String × ℕ) → ℤ
left now none = negsuc 1
left now (some (v, t)) = if ltb now t then pos ((t - now + 500) / 1000) else negsuc 1

abbrev ttl : ℕ → TextKey → Server → ℤ
ttl now k s = left now (s.texts k)

pub get_text-set_text :
    (now later : ℕ) (k j : TextKey) (v : String) (seconds : ℕ) (s : Server)
    → now ≤ later
    → get_text later j (set_text now k v seconds s) ≡ (
        if same_text_key k j
        then (if ltb later (now + 1000 * seconds) then some v else none)
        else get_text later j s)
get_text-set_text now later k j v seconds s h = ground arith

pub get_text-del_text :
    (now : ℕ) (k j : TextKey) (s : Server)
    → get_text now j (put_text k none s) ≡ (if same_text_key k j then none else get_text now j s)
get_text-del_text now k j s = ground arith

pub ttl-set_text :
    (now later : ℕ) (k j : TextKey) (v : String) (seconds : ℕ) (s : Server)
    → now ≤ later
    → ttl later j (set_text now k v seconds s) ≡ (
        if same_text_key k j
        then (if ltb later (now + 1000 * seconds)
            then pos ((now + 1000 * seconds - later + 500) / 1000)
            else negsuc 1)
        else ttl later j s)
ttl-set_text now later k j v seconds s h = ground arith

instance abbrev pub memory : Platform
memory = record {
  Table = List;
  rows = λ t. t;
  update = map_where;
  insert = λ a t. t ++ a ∷ [];
  rows-update = λ p f t. refl;
  rows-insert = λ a t. refl;
  Store = Server;
  get = get;
  set = set;
  set_nx = set_nx;
  incr = count_by (pos 1);
  decr = count_by (negsuc 0);
  expire = λ now k ttl. put k (refresh now ttl);
  del = λ k. put k (λ _. none);
  get-set = get-set;
  set_nx-free = set_nx-free;
  set_nx-taken = set_nx-taken;
  incr-value = λ now k s. refl;
  get-incr = get-count_by (pos 1);
  decr-value = λ now k s. refl;
  get-decr = get-count_by (negsuc 0);
  get-expire = get-expire;
  get-del = get-del;
  indexed = λ d s. contains d s.members;
  geoadd = λ d lon lat s. record s { members = d ∷ s.members };
  zrem = λ d s. record s { members = without d s.members };
  georadius = λ lon lat radius limit s. take limit s.members;
  set_position = set_position;
  get_position = get_position;
  get_position-set_position = get_position-set_position;
  get_position-set = λ now later d k v ttl s. refl;
  get-set_position = λ now later d p ttl j s. refl;
  indexed-set_position = λ now d e p ttl s. refl;
  lat_lng_to_cell = λ lat lon. 0;
  cell_to_lat_lng = λ cell. (pos 0, pos 0);
  get-zrem = λ now d j s. refl;
  indexed-zrem = λ d e s. contains-without d e s.members;
  indexed-geoadd = λ d e lon lat s. refl;
  indexed-del = λ e k s. refl;
  indexed-set = λ now e k v ttl s. refl;
  get_text = get_text;
  set_text = set_text;
  del_text = λ k. put_text k none;
  ttl = ttl;
  get_text-set_text = get_text-set_text;
  get_text-del_text = get_text-del_text;
  get_text-incr = λ now later k j s. refl;
  get_text-del = λ now k j s. refl;
  get-set_text = λ now later k v seconds j s. refl;
  get-del_text = λ now k j s. refl;
  ttl-set_text = ttl-set_text;
  ttl-del = λ now k j s. refl;
}

abbrev pub empty_server : Server
empty_server = record { cells = λ k. none; positions = λ d. none; members = []; texts = λ k. none }
