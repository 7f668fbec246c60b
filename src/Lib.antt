-- ===== src/Lib.antt =====
-- Lesch_OS: a small 32-bit kernel in C. This library models parts of it and proves what makes them
-- correct.
--
-- The parts. The kernel hands out memory in two layers: pages of physical memory, and the bytes of
-- a heap (src/memory.c; src/schedul.c has the user heap). Descriptors tell the processor where its
-- segments and handlers lie (src/tables_descript.c). Interrupts feed the keyboard's ring
-- (src/keyboard.c), the text screens take what is printed (src/tty16.c), and file systems are
-- mounted in a tree of names (src/vfs.c), whose paths the string routines take apart
-- (src/help_func.c). One such file system is ext2 (src/ext2.c). Programs talk to the network through
-- sockets (src/socket.c), which the network stack fills (src/net.c), and to each other through
-- messages in a ring (src/list.c, src/msg.c). Pictures are drawn from files (src/bitmap.c), in windows
-- (src/izo.c, src/windows.c).
--
-- Which file models what:
--   Base      shared names, lists with native indices, the laws of & and |, u32int arithmetic
--   Sync      src/sync.c: get_mtx, clean_mtx
--   Heap      src/memory.c: kmalloc_common, kfree, get_kheap_block, and src/schedul.c:
--             umalloc_common, ufree. The record HeapStr is struct heap_str; its blocks are the first
--             `count` entries of the C array, and `count` is their number
--   Pages     src/memory.c: free_phys_pages, alloc_phys_pages, on the headers by the address of the
--             page where each lies
--   Paging    src/memory.c: phys2virt, virt2phys, get_page_info on the entries of page tables, by the
--             frame of the table and the index
--   Descriptor  src/tables_descript.c: gdt_set, idt_set, tss_set, and src/common.c: the byte orders
--   Keyboard  src/keyboard.c: keyboard_handler, get_keyboard, get_asc2
--   Strings   src/help_func.c: memcpy, memset and memcmp on a memory of bytes; strlen, strcmp,
--             strncmp, strcpy, strsep, strstr, itoa and atoi on the bytes from a pointer on, with the
--             zero that ends the string. strcmp may end without a return, a value of its own
--   Vfs       src/vfs.c: vfs_mount, get_mountpoint, on the tree of mount points. Where strcmp ends
--             without a return, its callers here are taken to see a value other than 0
--   Tty16     src/tty16.c: tty16_put_char, tty16_scroll, tty16_hex, tty16_dec on one screen, the
--             record Tty16 of struct tty16, whose cells are a function
--   Socket    src/socket.c: socket, sock_bind, sock_listen, sock_close on the two tables
--   Net       src/net.c: ip_calc_checksum, arp_lookup, arp_lookup_add, tcp_listen, tcp_closed, the last
--             two on the ports of Socket
--   Ext2      src/ext2.c: ext2_read_block, ext2_write_block, rewrite_bgds, the inodes' metadata and
--             get_disk_block_number; Ext2.Bitmap ext2_alloc_block, ext2_alloc_inode, ext2_free_block,
--             ext2_free_inode; Ext2.Assign set_disk_block_number, alloc_inode_block, free_inode_block;
--             Ext2.Inode ext2_file_size, ext2_open, ext2_chmod; Ext2.Data ext2_read, ext2_write and
--             what they call. The volume is a store of bytes, and every structure of src/ext2.h, which
--             are packed, is its bytes: a field is read at its offset. alloc_groups and free_in are what
--             the functions for blocks and for inodes share; they take the offsets of the fields by
--             which the two differ
--   Images    src/bitmap.c: bmp_create, bmp_to_framebuff, bmp_display. draw is the body that the last two
--             share, and a buffer of pixels is a function of the index
--   Drawing   src/izo.c: the rectangles, set_pixel, pnt_line, draw_rect, draw_rect_region,
--             paint_clip_rect, paint2_clip_rect, and src/windows.c: get_dev_coordns,
--             is_windows_overlap. each_pixel is the two loops over a rectangle that four of them share;
--             line_loop is either loop of pnt_line, by the axis that steps always
--   Messages  src/list.c: list_add, list_remove, and src/msg.c: msg_send, msg_recv, get_msg, on the
--             items by their addresses
--   Timer     src/timer.c: the clock of timer_callback, and the divisor that init_timer writes
--
-- Numbers are natural numbers; u32int arithmetic wraps where the code's does. A loop takes fuel, and
-- a theorem says that the fuel given is enough: the search of kmalloc_common gets one round for each
-- block and one more, since a round that goes on has passed a block's end. The walks over the free
-- pages get one round for each block. A walk down a path gets one round for each byte and one more.
-- The loop that folds a checksum gets three rounds.
-- `none` is a call that does not return, or that leaves its memory.
--
-- Not modelled: assembly, devices, the drawing of text, the room that the array of heap blocks has, the memory
-- that a call takes for its own buffers, and what is printed.
pub mod Base
pub mod Sync
pub mod Heap
pub mod Descriptor
pub mod Keyboard
pub mod Strings
pub mod Vfs
pub mod Tty16
pub mod Pages
pub mod Socket
pub mod Paging
pub mod Timer
pub mod Ext2
pub mod Net
pub mod Messages
pub mod Images
pub mod Drawing
