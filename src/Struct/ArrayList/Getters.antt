-- ===== src/Struct/ArrayList/Getters.antt =====
-- src/struct/list.c: the getters, each that of the header, and the shorter constructors.
use vexspoke.Base.{ℕ, List, Bool, Option}
use vexspoke.Struct.Arena.{Arena}
use vexspoke.Struct.Exhaustion.{Exhaustion}
use vexspoke.Struct.Collection.{Collection, size as header_size, is_empty as header_is_empty}
use vexspoke.Struct.Collection.Getters
use vexspoke.Struct.ArrayList.{create}

-- List_isEmpty.
abbrev pub is_empty : Collection → Bool
is_empty c = header_is_empty c

-- List_size.
abbrev pub size : Collection → ℕ
size c = header_size c

-- List_length.
abbrev pub length : Collection → ℕ
length c = Getters.length c

-- List_capacity.
abbrev pub capacity : Collection → ℕ
capacity c = Getters.capacity c

-- List_elementClassId.
abbrev pub element_class_id : Collection → ℕ
element_class_id c = Getters.element_class_id c

-- List_stride.
abbrev pub stride : Collection → ℕ
stride c = Getters.stride c

-- List_exhaustionCount.
abbrev pub exhaustion_count : Collection → ℕ
exhaustion_count c = Getters.exhaustion_count c

-- List_dataBuffer.
abbrev pub data_buffer : Collection → List ℕ
data_buffer c = Getters.data_buffer c

-- List_1.
abbrev pub create_default : Arena → Exhaustion → ℕ → Option Collection × Exhaustion
create_default arena account element_class = create arena account element_class 16
