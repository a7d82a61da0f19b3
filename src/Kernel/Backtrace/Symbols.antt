-- ===== src/Kernel/Backtrace/Symbols.antt =====
-- `find_symbol_name` finds the first function symbol that covers an address.
use lq_os_lab.Base.{
  ℕ, zero, suc, ◌+◌, ◌≤◌, ◌<◌, ◌≡◌, ◌≢◌, refl, ap, ◌%◌, ◌^◌, Bool, true, false, not, ◌&&◌, Option,
  none, some, arith, ltb, leb, ◌==◌, if◌then◌else◌, Bool-cases, inl, inr,
}
use lq_os_lab.World.{ElfSymbol, Process}
use lq_os_lab.Kernel.Backtrace.{st_type, stt_func, limit_addr, find_symbol_loop, find_symbol_name}

-- The bytes that a symbol covers: its size, and 4 where it has none.
abbrev pub span : ℕ → ℕ
span zero = 4
span (suc n) = suc n

-- Symbol `j` is a function with an address and a name, and `vaddr` lies in it.
pub record Covers (p : Process) (vaddr j : ℕ) : Type 0 where
  pub function : st_type (p.symtab j).info ≡ stt_func
  pub placed : (p.symtab j).value ≢ 0
  pub above : (p.symtab j).value ≤ vaddr
  pub below : vaddr < ((p.symtab j).value + span (p.symtab j).size) % 2 ^ 64
  pub named : (p.symtab j).name < p.strtab_sz

-- The first symbol of those from `i` up to `n` that covers the address, or that there is none.
pub record IsFirst (p : Process) (vaddr i n off : ℕ) : Type 0 where
  pub index : ℕ
  pub from : i ≤ index
  pub to : index < n
  pub covers : Covers p vaddr index
  pub offset : off ≡ (p.symtab index).name
  pub first : (j : ℕ) → i ≤ j → j < index → ¬ Covers p vaddr j

abbrev pub Found : Process → ℕ → ℕ → ℕ → Option ℕ → Type 0
Found p vaddr i n none = (j : ℕ) → i ≤ j → j < n → ¬ Covers p vaddr j
Found p vaddr i n (some off) = IsFirst p vaddr i n off

module _ (p : Process) (vaddr : ℕ) where
  -- The tests that the loop makes on symbol `i`.
  abbrev test : ℕ → Bool
  test i =
      (st_type (p.symtab i).info == stt_func)
      && (not ((p.symtab i).value == 0)
          && (leb (p.symtab i).value vaddr
              && (ltb vaddr (limit_addr (p.symtab i)) && ltb (p.symtab i).name p.strtab_sz)))

  limit-span : (c : ElfSymbol) → limit_addr c ≡ (c.value + span c.size) % 2 ^ 64
  unfolding limit_addr
  limit-span c = ap (λ n. (c.value + n) % 2 ^ 64) (size c.size)
    where
      size : (n : ℕ) → (if n == 0 then 4 else n) ≡ span n
      size zero = refl
      size (suc n) = let e : (suc n == 0) ≡ false = ground arith in rw e refl

  Covers-test : (i : ℕ) → Covers p vaddr i → test i ≡ true
  Covers-test i c =
      ground (arith, limit-span (p.symtab i), c.function, c.placed, c.above, c.below, c.named)

  test-Covers : (i : ℕ) → test i ≡ true → Covers p vaddr i
  test-Covers i h = record {
    function = ground arith;
    placed = ground arith;
    above = ground arith;
    below = rw (← limit-span (p.symtab i)) (ground arith);
    named = ground arith;
  }

  loop-test :
      (k i : ℕ)
      → find_symbol_loop p vaddr (suc k) i
        ≡ (if test i then some (p.symtab i).name else find_symbol_loop p vaddr k (i + 1))
  unfolding find_symbol_loop
  loop-test k i = ground arith

  past :
      (i n : ℕ) (r : Option ℕ)
      → ¬ Covers p vaddr i
      → Found p vaddr (i + 1) n r
      → Found p vaddr i n r
  past i n none miss f = λ j lo hi c. elim (Bool-cases (i == j)) [
    | inl e ↦ let same : j ≡ i = ground arith in miss (rw same at c)
    | inr e ↦ f j (ground arith) hi c
  ]
  past i n (some off) miss f = record {
    index = f.index;
    from = omega (arith, f.from);
    to = f.to;
    covers = f.covers;
    offset = f.offset;
    first = λ j lo hi c. elim (Bool-cases (i == j)) [
      | inl e ↦ let same : j ≡ i = ground arith in miss (rw same at c)
      | inr e ↦ f.first j (ground arith) hi c
    ];
  }

  loop-Found : (k i n : ℕ) → i + k ≡ n → Found p vaddr i n (find_symbol_loop p vaddr k i)
  loop-Found zero i n e = unfold find_symbol_loop in λ j lo hi. absurd (omega arith)
  loop-Found (suc k) i n e = rw (loop-test k i) (elim (Bool-cases (test i)) [
    | inl hit ↦ rw hit (record {
      index = i;
      from = omega arith;
      to = omega arith;
      covers = test-Covers i hit;
      offset = refl;
      first = λ j lo hi. absurd (omega arith);
    })
    | inr miss ↦
        rw miss
          (past i n _ (λ c. let hit = Covers-test i c in cc) (loop-Found k (i + 1) n (omega arith)))
  ])

  -- The result is the name of the first function symbol, in the order of the table, that has an
  -- address, whose range, of its size or of 4 bytes where that is 0, holds the given address modulo
  -- 2^64, and whose name lies in the string table, and NULL exactly if there is none.
  pub find_symbol_name-Found : Found p vaddr 0 p.sym_count (find_symbol_name p vaddr)
  unfolding find_symbol_name
  find_symbol_name-Found = elim (Bool-cases (p.sym_count == 0)) [
    | inl empty ↦ rw empty (λ j lo hi c. absurd (ground arith))
    | inr some_left ↦ elim (Bool-cases (p.strtab_sz == 0)) [
      | inl nameless ↦ rw (some_left, nameless) (λ j lo hi c. absurd (ground (arith, c.named)))
      | inr names ↦ rw (some_left, names) (loop-Found p.sym_count 0 p.sym_count (omega arith))
    ]
  ]
