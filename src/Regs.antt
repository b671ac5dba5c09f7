-- ===== src/Regs.antt =====
-- The registers that an interrupt saves, `int_regs_t` of student-distrib/idt.h, and their bytes.
use loli_os.Prelude.{
  ℕ, ◌+◌, ◌*◌, ◌/◌, ◌%◌, ◌^◌, ◌<◌, ◌≡◌, refl, ap, ap₂, ◌∙◌, List, [], ◌∷◌, arith, get_or,
}
use loli_os.Memory.Words.{word_of, word_of-word_bytes}

-- `int_regs_t`. The last two fields are the bytes that the compiler adds behind cs and ss.
pub record IntRegs : Type 0 where
  pub cr0 : ℕ
  pub cr2 : ℕ
  pub cr3 : ℕ
  pub cr4 : ℕ
  pub ds : ℕ
  pub es : ℕ
  pub fs : ℕ
  pub gs : ℕ
  pub eax : ℕ
  pub ebx : ℕ
  pub ecx : ℕ
  pub edx : ℕ
  pub esi : ℕ
  pub edi : ℕ
  pub ebp : ℕ
  pub int_num : ℕ
  pub error_code : ℕ
  pub eip : ℕ
  pub cs : ℕ
  pub eflags : ℕ
  pub esp : ℕ
  pub ss : ℕ
  pub cs_pad : ℕ
  pub ss_pad : ℕ

-- Every field fits its type.
pub record IsRegs (r : IntRegs) : Type 0 where
  pub cr0 : r.cr0 < 2 ^ 32
  pub cr2 : r.cr2 < 2 ^ 32
  pub cr3 : r.cr3 < 2 ^ 32
  pub cr4 : r.cr4 < 2 ^ 32
  pub ds : r.ds < 2 ^ 16
  pub es : r.es < 2 ^ 16
  pub fs : r.fs < 2 ^ 16
  pub gs : r.gs < 2 ^ 16
  pub eax : r.eax < 2 ^ 32
  pub ebx : r.ebx < 2 ^ 32
  pub ecx : r.ecx < 2 ^ 32
  pub edx : r.edx < 2 ^ 32
  pub esi : r.esi < 2 ^ 32
  pub edi : r.edi < 2 ^ 32
  pub ebp : r.ebp < 2 ^ 32
  pub int_num : r.int_num < 2 ^ 32
  pub error_code : r.error_code < 2 ^ 32
  pub eip : r.eip < 2 ^ 32
  pub cs : r.cs < 2 ^ 16
  pub eflags : r.eflags < 2 ^ 32
  pub esp : r.esp < 2 ^ 32
  pub ss : r.ss < 2 ^ 16
  pub cs_pad : r.cs_pad < 2 ^ 16
  pub ss_pad : r.ss_pad < 2 ^ 16

-- The twenty words of the structure.
abbrev pub regs_words : IntRegs → List ℕ
regs_words r =
    r.cr0
    ∷ r.cr2
    ∷ r.cr3
    ∷ r.cr4
    ∷ (r.ds + 65536 * r.es)
    ∷ (r.fs + 65536 * r.gs)
    ∷ r.eax
    ∷ r.ebx
    ∷ r.ecx
    ∷ r.edx
    ∷ r.esi
    ∷ r.edi
    ∷ r.ebp
    ∷ r.int_num
    ∷ r.error_code
    ∷ r.eip
    ∷ (r.cs + 65536 * r.cs_pad)
    ∷ r.eflags
    ∷ r.esp
    ∷ (r.ss + 65536 * r.ss_pad)
    ∷ []

abbrev pub words_bytes : List ℕ → List ℕ
words_bytes [] = []
words_bytes (w ∷ ws) =
    w % 256 ∷ w / 256 % 256 ∷ w / 65536 % 256 ∷ w / 16777216 % 256 ∷ words_bytes ws

-- The eighty bytes of the structure.
unfoldable pub regs_bytes : IntRegs → List ℕ
regs_bytes r = words_bytes (regs_words r)

-- The words of a list of bytes.
unfoldable pub words_of : List ℕ → List ℕ
words_of (a ∷ b ∷ c ∷ d ∷ bs) = word_of (a ∷ b ∷ c ∷ d ∷ []) ∷ words_of bs
words_of bs = []

-- The registers that twenty words describe.
unfoldable pub regs_of_words : List ℕ → IntRegs
regs_of_words ws =
    let w = λ (i : ℕ). get_or ws i 0 in
    record {
      cr0 = w 0;
      cr2 = w 1;
      cr3 = w 2;
      cr4 = w 3;
      ds = w 4 % 65536;
      es = w 4 / 65536;
      fs = w 5 % 65536;
      gs = w 5 / 65536;
      eax = w 6;
      ebx = w 7;
      ecx = w 8;
      edx = w 9;
      esi = w 10;
      edi = w 11;
      ebp = w 12;
      int_num = w 13;
      error_code = w 14;
      eip = w 15;
      cs = w 16 % 65536;
      eflags = w 17;
      esp = w 18;
      ss = w 19 % 65536;
      cs_pad = w 16 / 65536;
      ss_pad = w 19 / 65536;
    }

unfoldable pub regs_of_bytes : List ℕ → IntRegs
unfolding words_of regs_of_words
regs_of_bytes bs = regs_of_words (words_of bs)

abbrev AllWords : List ℕ → Type 0
AllWords [] = Unit
AllWords (w ∷ ws) = (w < 2 ^ 32) × AllWords ws

words_of-words_bytes : (ws : List ℕ) → AllWords ws → words_of (words_bytes ws) ≡ ws
unfolding words_of
words_of-words_bytes [] h = refl
words_of-words_bytes (w ∷ ws) (h, hs) =
    ap₂ ◌∷◌ (word_of-word_bytes w h) (words_of-words_bytes ws hs)

low : (a b : ℕ) → a < 2 ^ 16 → (a + 65536 * b) % 65536 ≡ a
low a b h = omega (arith, h)

high : (a b : ℕ) → a < 2 ^ 16 → (a + 65536 * b) / 65536 ≡ b
high a b h = omega (arith, h)

pair : (a b : ℕ) → a < 2 ^ 16 → b < 2 ^ 16 → a + 65536 * b < 2 ^ 32
pair a b ha hb = omega (arith, ha, hb)

regs_of_words-regs_words : (r : IntRegs) → IsRegs r → regs_of_words (regs_words r) ≡ r
unfolding regs_of_words
regs_of_words-regs_words r v i = record r {
  ds = low r.ds r.es v.ds i;
  es = high r.ds r.es v.ds i;
  fs = low r.fs r.gs v.fs i;
  gs = high r.fs r.gs v.fs i;
  cs = low r.cs r.cs_pad v.cs i;
  cs_pad = high r.cs r.cs_pad v.cs i;
  ss = low r.ss r.ss_pad v.ss i;
  ss_pad = high r.ss r.ss_pad v.ss i;
}

-- The structure is read back from its bytes.
pub regs_of_bytes-regs_bytes : (r : IntRegs) → IsRegs r → regs_of_bytes (regs_bytes r) ≡ r
unfolding regs_of_bytes regs_bytes
regs_of_bytes-regs_bytes r v =
    ap regs_of_words (
      words_of-words_bytes (regs_words r) (
        v.cr0,
        (
          v.cr2,
          (
            v.cr3,
            (
              v.cr4,
              (
                pair r.ds r.es v.ds v.es,
                (
                  pair r.fs r.gs v.fs v.gs,
                  (
                    v.eax,
                    (
                      v.ebx,
                      (
                        v.ecx,
                        (
                          v.edx,
                          (
                            v.esi,
                            (
                              v.edi,
                              (
                                v.ebp,
                                (
                                  v.int_num,
                                  (
                                    v.error_code,
                                    (
                                      v.eip,
                                      (
                                        pair r.cs r.cs_pad v.cs v.cs_pad,
                                        (v.eflags, (v.esp, (pair r.ss r.ss_pad v.ss v.ss_pad, tt))),
                                      ),
                                    ),
                                  ),
                                ),
                              ),
                            ),
                          ),
                        ),
                      ),
                    ),
                  ),
                ),
              ),
            ),
          ),
        ),
      ))
    ∙ regs_of_words-regs_words r v
