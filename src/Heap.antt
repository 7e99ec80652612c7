-- ===== src/Heap.antt =====
-- os/kernel/mem.c: the kernel heap, a list of blocks in memory, each behind a header of 12 bytes. The
-- memory is modelled as the headers that have been written, by address, the newest first; `none` is
-- a read where no header was written. Addresses are `uint32_t`, and 0 is the null pointer.
pub mod Blocks
pub mod Laws
pub mod Align
pub mod Alloc
pub mod Free
pub mod Release
pub mod Refine
pub mod Init
mod Tests
use mathlib.Core.Option
use lardos.Base.{
  ℕ, zero, suc, ◌+◌, ◌-◌, ◌*◌, ◌^◌, ◌&&◌, ◌||◌, Bool, true, false, none, some, Option, List, [],
  ◌∷◌, ◌==◌, if◌then◌else◌, bit_and, not, ltb, leb,
}
use lardos.Base.Words.{u32, sub32}

pub record Header : Type 0 where
  pub size : ℕ
  pub next : ℕ
  pub free : Bool

abbrev pub Memory : Type 0
Memory = List (ℕ × Header)

abbrev pub header_sz : ℕ
header_sz = 12

abbrev pub alignment : ℕ
alignment = 16

abbrev pub heap_default_size : ℕ
heap_default_size = 4 * 1024 * 1024

-- `g_heap_start`, `g_heap_end`, `g_free_list`, `g_initialized`
pub record Heap : Type 0 where
  pub mem : Memory
  pub heap_start : ℕ
  pub heap_end : ℕ
  pub free_list : ℕ
  pub initialized : Bool

-- `*hdr_from_addr(addr)`
unfoldable pub read_header : Memory → ℕ → Option Header
read_header [] addr = none
read_header (cell ∷ mem) addr = if cell.0 == addr then some cell.1 else read_header mem addr

abbrev pub write_header : Memory → ℕ → Header → Memory
write_header mem addr h = (addr, h) ∷ mem

-- `(v + (a - 1)) & ~(a - 1)`
unfoldable pub align_up : ℕ → ℕ → ℕ
align_up v a = bit_and (u32 (v + (a - 1))) (2 ^ 32 - 1 - (a - 1))

-- `split_block` on the header `h` at `addr`
unfoldable pub split_block : Memory → ℕ → Header → ℕ → Memory
split_block mem addr h want =
    let h_end = u32 (u32 (addr + header_sz) + h.size) in
    let new_addr = align_up (u32 (u32 (addr + header_sz) + want)) alignment in
    let payload = u32 (new_addr + header_sz) in
    if ltb h.size (u32 (u32 (want + header_sz) + alignment))
      || leb h_end new_addr
      || ltb h_end payload
    then mem
    else write_header
        (write_header mem new_addr
          (record { size = sub32 h_end payload; next = h.next; free = true }))
        addr
        (record h {
          size = sub32 (sub32 payload (u32 (addr + header_sz))) header_sz;
          next = new_addr;
        })

-- `h->free = v`
unfoldable pub set_free : Memory → ℕ → Bool → Option Memory
set_free mem addr v =
    Option.map (λ h. write_header mem addr (record h { free = v })) (read_header mem addr)

-- The loop of `kmalloc` from the header at `h` on, for at most `fuel` headers.
unfoldable pub find_fit : ℕ → Memory → ℕ → ℕ → Option (ℕ × Memory)
find_fit zero mem h want = none
find_fit (suc fuel) mem h want = if h == 0 then some (0, mem) else elim (read_header mem h) [
  | none ↦ none
  | some hdr ↦ elim (not hdr.free || ltb hdr.size want) [
    | true ↦ find_fit fuel mem hdr.next want
    | false ↦
        Option.map (λ m. (u32 (h + header_sz), m)) (set_free (split_block mem h hdr want) h false)
  ]
]

-- The loop of `coalesce`.
unfoldable pub coalesce_loop : ℕ → Memory → ℕ → Option Memory
coalesce_loop zero mem h = none
coalesce_loop (suc fuel) mem h = if h == 0 then some mem else elim (read_header mem h) [
  | none ↦ none
  | some hdr ↦ elim (not hdr.free || hdr.next == 0) [
    | true ↦ coalesce_loop fuel mem hdr.next
    | false ↦ elim (read_header mem hdr.next) [
      | none ↦ none
      | some n ↦ elim (n.free && u32 (u32 (h + header_sz) + hdr.size) == hdr.next) [
        | true ↦
            coalesce_loop fuel
              (write_header mem h
                (record hdr { size = u32 (hdr.size + u32 (header_sz + n.size)); next = n.next }))
              n.next
        | false ↦ coalesce_loop fuel mem hdr.next
      ]
    ]
  ]
]

unfoldable pub mem_init : ℕ → Heap → Heap
mem_init kernel_end g =
    if g.initialized
    then g
    else let start = align_up kernel_end alignment in
      record {
        mem = write_header g.mem start (record {
          size = sub32 (sub32 (u32 (start + heap_default_size)) start) header_sz;
          next = 0;
          free = true;
        });
        heap_start = start;
        heap_end = u32 (start + heap_default_size);
        free_list = start;
        initialized = true;
      }

-- `kmalloc`: the pointer, 0 when there is none. `kernel_end` is the address of the linker's symbol
-- `__kernel_end`. `none` as a result is a walk that leaves the headers or the fuel.
unfoldable pub kmalloc : ℕ → ℕ → Heap → ℕ → Option (ℕ × Heap)
kmalloc fuel kernel_end g0 size =
    let g = mem_init kernel_end g0 in
    if size == 0
    then some (0, g)
    else Option.map (λ r. (r.0, record g { mem = r.1 }))
        (find_fit fuel g.mem g.free_list (align_up size alignment))

unfoldable pub kfree : ℕ → Heap → ℕ → Option Heap
kfree fuel g p =
    if p == 0 || not g.initialized || ltb p (u32 (g.heap_start + header_sz)) || leb g.heap_end p
    then some g
    else elim (set_free g.mem (sub32 p header_sz) true) [
      | none ↦ none
      | some mem ↦ Option.map (λ m. record g { mem = m }) (coalesce_loop fuel mem g.free_list)
    ]

unfoldable pub free_loop : ℕ → Memory → ℕ → Option ℕ
free_loop zero mem h = none
free_loop (suc fuel) mem h = if h == 0 then some 0 else elim (read_header mem h) [
  | none ↦ none
  | some hdr ↦
      Option.map (λ total. if hdr.free then u32 (hdr.size + total) else total)
        (free_loop fuel mem hdr.next)
]

unfoldable pub mem_bytes_free : ℕ → Heap → Option ℕ
mem_bytes_free fuel g = if g.initialized then free_loop fuel g.mem g.free_list else some 0
