-- ===== src/Heap/Layout.antt =====
-- Headers and footers in memory: what is read back after a write, and what a write leaves alone.
use jslk.Base.{ℕ, inr, arith, ◌+◌, ◌^◌, ◌<◌, ◌≡◌, ◌∙◌}
use jslk.Base.Memory.{
  Memory, load32, Apart, store32_outside, load32-store32_self, load32-store32-Apart,
  load32-store8-Apart, store8_self, store8_outside,
}
use jslk.Heap.{
  heap_magic, header_magic, header_is_hole, header_size, footer_magic, footer_header, set_header,
  set_footer,
}

-- What a header at `a` says.
pub record IsHeader (m : Memory) (a is_hole size : ℕ) : Type 0 where
  pub magic : header_magic m a ≡ heap_magic
  pub hole : header_is_hole m a ≡ is_hole
  pub size_eq : header_size m a ≡ size

pub record IsFooter (m : Memory) (a header : ℕ) : Type 0 where
  pub magic : footer_magic m a ≡ heap_magic
  pub owner : footer_header m a ≡ header

module _ (m : Memory) (a : ℕ) where
  pub set_header-IsHeader :
      (is_hole size : ℕ) → size < 2 ^ 32 → IsHeader (set_header m a is_hole size) a is_hole size
  unfolding set_header header_magic header_is_hole header_size
  set_header-IsHeader is_hole size h = record {
    magic =
        load32-store32-Apart _ (a + 8) size a (inr (omega arith))
        ∙ load32-store8-Apart _ (a + 4) is_hole a (inr (omega arith))
        ∙ load32-store32_self m a heap_magic (omega arith);
    hole =
        store32_outside _ (a + 8) size (a + 4) (inr (omega arith)) ∙ store8_self _ (a + 4) is_hole;
    size_eq = load32-store32_self _ (a + 8) size h;
  }

  pub set_footer-IsFooter :
      (header : ℕ) → header < 2 ^ 32 → IsFooter (set_footer m a header) a header
  unfolding set_footer footer_magic footer_header
  set_footer-IsFooter header h = record {
    magic =
        load32-store32-Apart _ (a + 4) header a (inr (omega arith))
        ∙ load32-store32_self m a heap_magic (omega arith);
    owner = load32-store32_self _ (a + 4) header h;
  }

  -- A word outside the header, or outside the footer, keeps its value.
  pub load32-set_header :
      (is_hole size b : ℕ) → Apart a 12 b 4 → load32 (set_header m a is_hole size) b ≡ load32 m b
  unfolding set_header
  load32-set_header is_hole size b h =
      load32-store32-Apart _ (a + 8) size b (omega arith)
      ∙ load32-store8-Apart _ (a + 4) is_hole b (omega arith)
      ∙ load32-store32-Apart m a heap_magic b (omega arith)

  pub load32-set_footer :
      (header b : ℕ) → Apart a 8 b 4 → load32 (set_footer m a header) b ≡ load32 m b
  unfolding set_footer
  load32-set_footer header b h =
      load32-store32-Apart _ (a + 4) header b (omega arith)
      ∙ load32-store32-Apart m a heap_magic b (omega arith)

  pub byte-set_header : (is_hole size b : ℕ) → Apart a 12 b 1 → set_header m a is_hole size b ≡ m b
  unfolding set_header
  byte-set_header is_hole size b h =
      store32_outside _ (a + 8) size b (omega arith)
      ∙ store8_outside _ (a + 4) is_hole b (omega arith)
      ∙ store32_outside m a heap_magic b (omega arith)

  pub byte-set_footer : (header b : ℕ) → Apart a 8 b 1 → set_footer m a header b ≡ m b
  unfolding set_footer
  byte-set_footer header b h =
      store32_outside _ (a + 4) header b (omega arith)
      ∙ store32_outside m a heap_magic b (omega arith)

-- A header or a footer survives the writing of another that does not overlap it.
module _ {m : Memory} {b : ℕ} where
  pub IsHeader-set_header :
      {is_hole size : ℕ} (a hole' size' : ℕ)
      → IsHeader m b is_hole size
      → Apart a 12 b 12
      → IsHeader (set_header m a hole' size') b is_hole size
  unfolding header_magic header_is_hole header_size
  IsHeader-set_header a hole' size' r h = record {
    magic = load32-set_header m a hole' size' b (omega arith) ∙ r.magic;
    hole = byte-set_header m a hole' size' (b + 4) (omega arith) ∙ r.hole;
    size_eq = load32-set_header m a hole' size' (b + 8) (omega arith) ∙ r.size_eq;
  }

  pub IsHeader-set_footer :
      {is_hole size : ℕ} (a header : ℕ)
      → IsHeader m b is_hole size
      → Apart a 8 b 12
      → IsHeader (set_footer m a header) b is_hole size
  unfolding header_magic header_is_hole header_size
  IsHeader-set_footer a header r h = record {
    magic = load32-set_footer m a header b (omega arith) ∙ r.magic;
    hole = byte-set_footer m a header (b + 4) (omega arith) ∙ r.hole;
    size_eq = load32-set_footer m a header (b + 8) (omega arith) ∙ r.size_eq;
  }

  pub IsFooter-set_header :
      {header : ℕ} (a hole' size' : ℕ)
      → IsFooter m b header
      → Apart a 12 b 8
      → IsFooter (set_header m a hole' size') b header
  unfolding footer_magic footer_header
  IsFooter-set_header a hole' size' r h = record {
    magic = load32-set_header m a hole' size' b (omega arith) ∙ r.magic;
    owner = load32-set_header m a hole' size' (b + 4) (omega arith) ∙ r.owner;
  }

  pub IsFooter-set_footer :
      {header : ℕ} (a header' : ℕ)
      → IsFooter m b header
      → Apart a 8 b 8
      → IsFooter (set_footer m a header') b header
  unfolding footer_magic footer_header
  IsFooter-set_footer a header' r h = record {
    magic = load32-set_footer m a header' b (omega arith) ∙ r.magic;
    owner = load32-set_footer m a header' (b + 4) (omega arith) ∙ r.owner;
  }
