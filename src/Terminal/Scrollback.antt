-- ===== src/Terminal/Scrollback.antt =====
-- internal/agent/domain/terminal/scrollback.go: the bounded byte buffer with absolute offsets.
-- Each method runs under the mutex. The channel `wait` only wakes readers, which then look at the
-- state again, so a reader is a sequence of turns of the loop of `ReadFrom`.
pub mod Closed
pub mod History
use constellate.Common.{
  ℕ, ◌+◌, ◌-◌, ◌*◌, ◌%◌, ◌^◌, Bool, true, false, Option, none, some, List, [], ◌∷◌, ◌++◌, Word,
  le_int, leb, ltb, add_int, if◌then◌else◌, length, take, drop,
}

abbrev pub Bytes : Type 0
Bytes = List ℕ

abbrev pub default_scrollback_bytes : ℕ
default_scrollback_bytes = 256 * 1024

pub record Scrollback : Type 0 where
  pub buf : Bytes
  pub max : Word
  pub start : Word
  pub closed : Bool

-- `NewScrollback`
pub new : Word → Scrollback
new max = record {
  buf = [];
  max = if le_int max 0 then default_scrollback_bytes else max;
  start = 0;
  closed = false;
}

-- The first `if` of `Write`: of an oversized write only the last `max` bytes are kept.
pub shorten : Bytes → Scrollback → Bytes × Scrollback
shorten p s =
    if ltb s.max (length p)
    then (let drops = length p - s.max in
        (
          drop drops p,
          record s { buf = []; start = add_int s.start (add_int (length s.buf) drops) },
        ))
    else (p, s)

-- The second `if`, behind the append.
pub evict : Scrollback → Scrollback
evict s =
    if ltb s.max (length s.buf)
    then (let drops = length s.buf - s.max in
        record s { buf = take s.max (drop drops s.buf); start = add_int s.start drops })
    else s

-- `Write`
pub write : Bytes → Scrollback → Scrollback
unfolding shorten evict
write p s = let (q, t) = shorten p s in evict (record t { buf = t.buf ++ q })

-- `Close`
pub close : Scrollback → Scrollback
close s = record s { closed = true }

-- `Oldest` and `Snapshot`
pub oldest : Scrollback → Word
oldest s = s.start

unfoldable pub snapshot : Scrollback → Bytes
snapshot s = s.buf

-- `NewScrollbackWithData`
pub new_with_data : Word → Bytes → Scrollback
unfolding new write
new_with_data max [] = new max
new_with_data max (b ∷ data') = write (b ∷ data') (new max)

-- What one turn of the loop of `ReadFrom` comes to.
pub data Read : Type 0 where
  got : Bytes → Word → Read
  ended : Word → Read
  waits : Word → Read

-- The offsets are never negative, so they are compared as natural numbers.
pub read_from : Word → Scrollback → Read
read_from cursor s =
    let end = add_int s.start (length s.buf) in
    let c = if ltb cursor s.start then s.start else cursor in
    if ltb c end then got (drop (c - s.start) s.buf) end else if s.closed then ended c else waits c
