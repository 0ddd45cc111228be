-- ===== src/Pool/Printing.antt =====
-- test-drm-mm/main.c: the text that `dump_data` prints. A function answers the text that is printed in
-- front of what is printed next.
use cma_pool_log.Base.{Bool, true, false, List, [], ◌∷◌, ◌++◌, if◌then◌else◌}
use cma_pool_log.Text.{Bytes, bytes}
use cma_pool_log.Text.Printf.{decimal}
use cma_pool_log.Pool.{Madv, willneed, dontneed, Entry, Dump}

unfoldable pub bool_str : Bool → Bytes
bool_str true = bytes "true"
bool_str false = bytes "false"

unfoldable pub madv_str : Madv → Bytes
madv_str dontneed = bytes "dontneed"
madv_str willneed = bytes "willneed"

-- The `printf` in the loop of `dump_data`.
unfoldable pub entry_text : Entry → Bytes → Bytes
unfolding decimal bool_str madv_str
entry_text e next =
    bytes "\n      { \"name\": "
    ++ decimal e.name (
        bytes ", \"size\": "
        ++ decimal e.size (
            bytes ", \"unmoveable\": "
            ++ (bool_str e.unmoveable
                ++ (bytes ", \"in_use\": "
                    ++ (bool_str e.in_use
                        ++ (bytes ", \"madv\": \""
                            ++ (madv_str e.madv
                                ++ (bytes "\", \"offset\": "
                                    ++ decimal e.offset (bytes " }" ++ next)))))))))

-- The loop: a comma stands before each entry but the first.
unfoldable pub entries_text : Bool → List Entry → Bytes → Bytes
unfolding entry_text
entries_text first [] next = next
entries_text first (e ∷ es) next =
    let text = entry_text e (entries_text false es next) in
    if first then text else bytes "," ++ text

unfoldable pub dump_text : Dump → Bytes → Bytes
unfolding entries_text decimal
dump_text d next =
    bytes "{\n   \"overflow\": "
    ++ decimal d.overflow
        (bytes ",\n   \"buffers\": [" ++ entries_text true d.buffers (bytes "\n   ]\n}\n" ++ next))
