-- ===== src/Platform.antt =====
-- What the program takes from outside its sources: the Postgres tables that drizzle-orm queries and
-- the Redis server that ioredis talks to. Both are one parameter of every module, with the
-- documented behaviour that the code relies on as its laws. The keys are those the code builds by
-- template strings; two templates, or two arguments of one, never give the same key.
mod Keys
unfoldable pub use Keys.*
use Prim.Native.String.{String}
use obbian_ribe_booking_app.Base.{
  ℕ, ◌+◌, ◌-◌, ◌/◌, ◌*◌, ◌≤◌, ◌<◌, ◌≡◌, Bool, true, false, Option, none, some, List, [], ◌∷◌, ◌++◌,
  ltb, ◌==◌, if◌then◌else◌, map_where, ℤ, pos, negsuc, ◌+ℤ◌,
}

-- The number that INCR counts on from: 0 for a key that is not set.
abbrev pub counter : Option ℤ → ℤ
counter none = pos 0
counter (some n) = n

pub record Platform : Type 1 where
  -- A table with its rows in the order in which they were inserted.
  pub Table : Type 0 → Type 0
  pub rows : {A : Type 0} → Table A → List A
  -- UPDATE … SET … WHERE …
  pub update : {A : Type 0} → (A → Bool) → (A → A) → Table A → Table A
  -- INSERT
  pub insert : {A : Type 0} → A → Table A → Table A
  pub rows-update :
      {A : Type 0} (p : A → Bool) (f : A → A) (t : Table A)
      → rows (update p f t) ≡ map_where p f (rows t)
  pub rows-insert : {A : Type 0} (a : A) (t : Table A) → rows (insert a t) ≡ rows t ++ a ∷ []
  -- The state of the Redis server. Commands take the time in milliseconds.
  pub Store : Type 0
  pub get : ℕ → RedisKey → Store → Option ℤ
  -- SET key value EX ttl
  pub set : ℕ → RedisKey → ℤ → ℕ → Store → Store
  -- SET key value EX ttl NX, with whether it has set the key
  pub set_nx : ℕ → RedisKey → ℤ → ℕ → Store → Bool × Store
  pub incr : ℕ → RedisKey → Store → ℤ × Store
  pub decr : ℕ → RedisKey → Store → ℤ × Store
  pub expire : ℕ → RedisKey → ℕ → Store → Store
  pub del : RedisKey → Store → Store
  pub get-set :
      (now later : ℕ) (k j : RedisKey) (v : ℤ) (ttl : ℕ) (s : Store)
      → now ≤ later
      → get later j (set now k v ttl s) ≡ (
          if same_key k j
          then (if ltb later (now + 1000 * ttl) then some v else none)
          else get later j s)
  pub set_nx-free :
      (now : ℕ) (k : RedisKey) (v : ℤ) (ttl : ℕ) (s : Store)
      → get now k s ≡ none
      → set_nx now k v ttl s ≡ (true, set now k v ttl s)
  pub set_nx-taken :
      (now : ℕ) (k : RedisKey) (v : ℤ) (ttl : ℕ) (s : Store) {u : ℤ}
      → get now k s ≡ some u
      → set_nx now k v ttl s ≡ (false, s)
  pub incr-value :
      (now : ℕ) (k : RedisKey) (s : Store) → (incr now k s).0 ≡ counter (get now k s) +ℤ pos 1
  pub get-incr :
      (now : ℕ) (k j : RedisKey) (s : Store)
      → get now j (incr now k s).1 ≡ (if same_key k j then some (incr now k s).0 else get now j s)
  pub decr-value :
      (now : ℕ) (k : RedisKey) (s : Store) → (decr now k s).0 ≡ counter (get now k s) +ℤ negsuc 0
  pub get-decr :
      (now : ℕ) (k j : RedisKey) (s : Store)
      → get now j (decr now k s).1 ≡ (if same_key k j then some (decr now k s).0 else get now j s)
  pub get-expire :
      (now : ℕ) (k j : RedisKey) (ttl : ℕ) (s : Store)
      → 0 < ttl
      → get now j (expire now k ttl s) ≡ get now j s
  pub get-del :
      (now : ℕ) (k j : RedisKey) (s : Store)
      → get now j (del k s) ≡ (if same_key k j then none else get now j s)
  -- The geo index of the drivers (GEOADD and ZREM on `drivers:geo`): who is in it, and the changes.
  pub indexed : ℕ → Store → Bool
  pub geoadd : ℕ → ℤ → ℤ → Store → Store
  pub zrem : ℕ → Store → Store
  -- GEORADIUS, in metres, with COUNT and ASC
  pub georadius : ℤ → ℤ → ℕ → ℕ → Store → List ℕ
  -- The cached position of a driver: SETEX and GET of its JSON text
  pub set_position : ℕ → ℕ → Position → ℕ → Store → Store
  pub get_position : ℕ → ℕ → Store → Option Position
  pub get_position-set_position :
      (now later d e : ℕ) (p : Position) (ttl : ℕ) (s : Store)
      → now ≤ later
      → get_position later e (set_position now d p ttl s) ≡ (
          if d == e
          then (if ltb later (now + 1000 * ttl) then some p else none)
          else get_position later e s)
  pub get_position-set :
      (now later d : ℕ) (k : RedisKey) (v : ℤ) (ttl : ℕ) (s : Store)
      → get_position later d (set now k v ttl s) ≡ get_position later d s
  pub get-set_position :
      (now later d : ℕ) (p : Position) (ttl : ℕ) (j : RedisKey) (s : Store)
      → get later j (set_position now d p ttl s) ≡ get later j s
  pub indexed-set_position :
      (now d e : ℕ) (p : Position) (ttl : ℕ) (s : Store)
      → indexed e (set_position now d p ttl s) ≡ indexed e s
  -- latLngToCell at resolution 8 and cellToLatLng, of h3-js
  pub lat_lng_to_cell : ℤ → ℤ → ℕ
  pub cell_to_lat_lng : ℕ → ℤ × ℤ
  pub get-zrem : (now d : ℕ) (j : RedisKey) (s : Store) → get now j (zrem d s) ≡ get now j s
  pub indexed-zrem :
      (d e : ℕ) (s : Store) → indexed e (zrem d s) ≡ (if d == e then false else indexed e s)
  pub indexed-geoadd :
      (d e : ℕ) (lon lat : ℤ) (s : Store)
      → indexed e (geoadd d lon lat s) ≡ (if d == e then true else indexed e s)
  pub indexed-del : (e : ℕ) (k : RedisKey) (s : Store) → indexed e (del k s) ≡ indexed e s
  pub indexed-set :
      (now e : ℕ) (k : RedisKey) (v : ℤ) (ttl : ℕ) (s : Store)
      → indexed e (set now k v ttl s) ≡ indexed e s
  -- Values that are text: GET, SET key value EX ttl, DEL, and TTL, which rounds to whole seconds and
  -- is negative for a key that is not set.
  pub get_text : ℕ → TextKey → Store → Option String
  pub set_text : ℕ → TextKey → String → ℕ → Store → Store
  pub del_text : TextKey → Store → Store
  pub ttl : ℕ → TextKey → Store → ℤ
  pub get_text-set_text :
      (now later : ℕ) (k j : TextKey) (v : String) (seconds : ℕ) (s : Store)
      → now ≤ later
      → get_text later j (set_text now k v seconds s) ≡ (
          if same_text_key k j
          then (if ltb later (now + 1000 * seconds) then some v else none)
          else get_text later j s)
  pub get_text-del_text :
      (now : ℕ) (k j : TextKey) (s : Store)
      → get_text now j (del_text k s) ≡ (if same_text_key k j then none else get_text now j s)
  pub get_text-incr :
      (now later : ℕ) (k : RedisKey) (j : TextKey) (s : Store)
      → get_text later j (incr now k s).1 ≡ get_text later j s
  pub get_text-del :
      (now : ℕ) (k : RedisKey) (j : TextKey) (s : Store)
      → get_text now j (del k s) ≡ get_text now j s
  pub get-set_text :
      (now later : ℕ) (k : TextKey) (v : String) (seconds : ℕ) (j : RedisKey) (s : Store)
      → get later j (set_text now k v seconds s) ≡ get later j s
  pub get-del_text :
      (now : ℕ) (k : TextKey) (j : RedisKey) (s : Store) → get now j (del_text k s) ≡ get now j s
  pub ttl-set_text :
      (now later : ℕ) (k j : TextKey) (v : String) (seconds : ℕ) (s : Store)
      → now ≤ later
      → ttl later j (set_text now k v seconds s) ≡ (
          if same_text_key k j
          then (if ltb later (now + 1000 * seconds)
              then pos ((now + 1000 * seconds - later + 500) / 1000)
              else negsuc 1)
          else ttl later j s)
  pub ttl-del :
      (now : ℕ) (k : RedisKey) (j : TextKey) (s : Store) → ttl now j (del k s) ≡ ttl now j s
