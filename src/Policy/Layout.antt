-- ===== src/Policy/Layout.antt =====
-- zigbee_chip_layout.h: flash geometry and the place of the NV pages.
use mathlib.Core.Option.{Option, none, some}
use Prim.Native.String.{String}
use zigbee_gateway.Common.{ℕ, ◌*◌, ◌/◌, ◌%◌, ◌≤◌, ◌≡◌, arith}

pub data ChipFamily : Type 0 where
  unknown cc13x2_cc26x2 cc13x2x7_cc26x2x7 : ChipFamily

pub record ZigbeeChipLayout : Type 0 where
  pub name : String
  pub flash_size_unit_bytes : ℕ
  pub nv_base : ℕ
  pub nv_size : ℕ
  pub nv_page_size : ℕ

abbrev pub chip_layout_x2 : ZigbeeChipLayout
chip_layout_x2 = record {
  name = "cc13x2_cc26x2";
  flash_size_unit_bytes = 0x00001000;
  nv_base = 0x00050000;
  nv_size = 0x00006000;
  nv_page_size = 0x00002000;
}

abbrev pub chip_layout_x2x7 : ZigbeeChipLayout
chip_layout_x2x7 = record {
  name = "cc13x2x7_cc26x2x7";
  flash_size_unit_bytes = 0x00002000;
  nv_base = 0x000A6000;
  nv_size = 0x00008000;
  nv_page_size = 0x00002000;
}

unfoldable pub chip_layout_for_family : ChipFamily → Option ZigbeeChipLayout
chip_layout_for_family cc13x2_cc26x2 = some chip_layout_x2
chip_layout_for_family cc13x2x7_cc26x2x7 = some chip_layout_x2x7
chip_layout_for_family unknown = none

unfoldable pub nv_page_count : ZigbeeChipLayout → ℕ
nv_page_count layout = layout.nv_size / layout.nv_page_size

-- The layout of every family starts on a page and consists of whole pages, three or four of them.
pub layout_pages :
    (family : ChipFamily) (layout : ZigbeeChipLayout)
    → chip_layout_for_family family ≡ some layout
    → (layout.nv_base % layout.nv_page_size ≡ 0)
      × (nv_page_count layout * layout.nv_page_size ≡ layout.nv_size)
      × (3 ≤ nv_page_count layout)
      × (nv_page_count layout ≤ 4)
unfolding chip_layout_for_family nv_page_count
layout_pages unknown layout h = cc
layout_pages cc13x2_cc26x2 layout h = ground arith
layout_pages cc13x2x7_cc26x2x7 layout h = ground arith
